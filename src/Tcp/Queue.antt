-- ===== src/Tcp/Queue.antt =====
-- Lemmas on the tasks of src/probe/tcp.rs that have not ended: their positions, their indices, and
-- the results that are stored at them.
use mathlib.Core.Path.{subst}
use mathlib.Core.List.{Memᴰ}
use mathlib.Core.List.Memᴰ.{head, tail}
use netwhy.Prelude.{
  ℕ, zero, suc, ◌+◌, ◌≤◌, ◌<◌, ◌≡◌, ◌≢◌, ◌⊎◌, refl, ap, sym, ◌∙◌, Bool, true, false, not, ◌&&◌,
  ◌==◌, Option, some, List, [], ◌∷◌, ◌++◌, map, arith, if◌then◌else◌, any, length, get_elem?, set,
  take, drop, All, All-imp, All-mem, Bool-cases, inl, inr,
}
use netwhy.Net.{SocketAddr}
use netwhy.Model.{TcpResult}
use netwhy.Tcp.{Task, enumerate, remove}

module _ {ℓ} {A : Type ℓ} where
  pub remove-append :
      (xs ys : List A) (k : ℕ) → k < length xs → remove xs k ++ ys ≡ remove (xs ++ ys) k
  remove-append [] ys k h = absurd (omega arith)
  remove-append (x ∷ xs) ys zero h = refl
  remove-append (x ∷ xs) ys (suc k) h = ap (λ zs. x ∷ zs) (remove-append xs ys k (omega arith))

  pub length-remove : (xs : List A) (k : ℕ) → k < length xs → suc (length (remove xs k)) ≡ length xs
  length-remove [] k h = absurd (omega arith)
  length-remove (x ∷ xs) zero h = refl
  length-remove (x ∷ xs) (suc k) h = omega (arith, length-remove xs k (omega arith))

  pub get_elem-append :
      (xs ys : List A) (k : ℕ) → k < length xs → get_elem? (xs ++ ys) k ≡ get_elem? xs k
  get_elem-append [] ys k h = absurd (omega arith)
  get_elem-append (x ∷ xs) ys zero h = refl
  get_elem-append (x ∷ xs) ys (suc k) h = get_elem-append xs ys k (omega arith)

  pub get_elem_below : (xs : List A) (k : ℕ) → k < length xs → (x : A) × (get_elem? xs k ≡ some x)
  get_elem_below [] k h = absurd (omega arith)
  get_elem_below (x ∷ xs) zero h = (x, refl)
  get_elem_below (x ∷ xs) (suc k) h = get_elem_below xs k (omega arith)

  pub All-remove {κ} : (P : A → Type κ) (xs : List A) (k : ℕ) → All P xs → All P (remove xs k)
  All-remove P [] k h = tt
  All-remove P (x ∷ xs) zero h = h.1
  All-remove P (x ∷ xs) (suc k) h = (h.0, All-remove P xs k h.1)

  pub All-get_elem {κ} :
      (P : A → Type κ) (xs : List A) (k : ℕ) (x : A) → All P xs → get_elem? xs k ≡ some x → P x
  All-get_elem P [] k x h e = cc
  All-get_elem P (y ∷ xs) zero x h e = subst P (mathlib.Core.Option.some-injective _ _ e) h.0
  All-get_elem P (y ∷ xs) (suc k) x h e = All-get_elem P xs k x h.1 e

  pub take-drop : (n : ℕ) (xs : List A) → take n xs ++ drop n xs ≡ xs
  take-drop zero xs = refl
  take-drop (suc n) [] = refl
  take-drop (suc n) (x ∷ xs) = ap (λ zs. x ∷ zs) (take-drop n xs)

  pub drop-or-take : (n : ℕ) (xs : List A) → (drop n xs ≡ []) ⊎ (length (take n xs) ≡ n)
  drop-or-take zero xs = inr refl
  drop-or-take (suc n) [] = inl refl
  drop-or-take (suc n) (x ∷ xs) = elim (drop-or-take n xs) [
    | inl e ↦ inl e
    | inr e ↦ inr (ap suc e)
  ]

  pub map_congr {κ} :
      {B : Type κ} (f g : A → B) (xs : List A) → All (λ x. f x ≡ g x) xs → map f xs ≡ map g xs
  map_congr f g [] h = refl
  map_congr f g (x ∷ xs) h = mathlib.Core.Path.ap₂ (λ y ys. y ∷ ys) h.0 (map_congr f g xs h.1)

  pub All-self : (xs : List A) → All (λ x. Memᴰ x xs) xs
  All-self [] = tt
  All-self (x ∷ xs) = (head refl, All-imp (λ y m. tail m) xs (All-self xs))

-- No two tasks have one index.
abbrev pub DifferInIndex : List Task → Type 0
DifferInIndex [] = Unit
DifferInIndex (t ∷ ts) = All (λ s. t.index ≢ s.index) ts × DifferInIndex ts

pub DifferInIndex-remove : (ts : List Task) (k : ℕ) → DifferInIndex ts → DifferInIndex (remove ts k)
DifferInIndex-remove [] k h = tt
DifferInIndex-remove (t ∷ ts) zero h = h.1
DifferInIndex-remove (t ∷ ts) (suc k) h = (All-remove _ ts k h.0, DifferInIndex-remove ts k h.1)

pub index_unique :
    {s t : Task} {ts : List Task}
    → DifferInIndex ts
    → Memᴰ s ts
    → Memᴰ t ts
    → s.index ≡ t.index
    → s ≡ t
index_unique h (head e) (head f) i = e ∙ sym f
index_unique h (head e) (tail n) i =
    absurd (All-mem _ h.0 n (sym (ap (λ (t : Task). t.index) e) ∙ i))
index_unique h (tail m) (head f) i =
    absurd (All-mem _ h.0 m (sym (ap (λ (t : Task). t.index) f) ∙ sym i))
index_unique h (tail m) (tail n) i = index_unique h.1 m n i

-- Some task of the queue has the index.
abbrev pub is_queued : ℕ → List Task → Bool
is_queued i ts = any (λ t. i == t.index) ts

not_queued : (i : ℕ) (ts : List Task) → All (λ s. i ≢ s.index) ts → is_queued i ts ≡ false
not_queued i [] h = refl
not_queued i (t ∷ ts) h = ground (arith, not_queued i ts h.1, h.0)

-- A task that is taken from the queue is the only one that leaves it.
pub is_queued-remove :
    (i : ℕ) (ts : List Task) (k : ℕ) (t : Task)
    → DifferInIndex ts
    → get_elem? ts k ≡ some t
    → is_queued i (remove ts k) ≡ (is_queued i ts && not (i == t.index))
is_queued-remove i [] k t d e = cc
is_queued-remove i (s ∷ ts) zero t d e =
    let same : s ≡ t = mathlib.Core.Option.some-injective _ _ e in
    rw (sym same) (elim (Bool-cases (i == s.index)) [
      | inl f ↦
          let eq : i ≡ s.index = ground arith in
          rw (not_queued i ts (All-imp (λ u h g. h (sym eq ∙ g)) ts d.0)) (ground arith)
      | inr f ↦ ground arith
    ])
is_queued-remove i (s ∷ ts) (suc k) t d e =
    let later = is_queued-remove i ts k t d.1 e in
    let differ : t.index ≢ s.index = λ f. All-get_elem _ ts k t d.0 e (sym f) in ground arith

pub enumerate_from : (o : ℕ) (xs : List SocketAddr) → All (λ t. o ≤ t.index) (enumerate o xs)
enumerate_from o [] = tt
enumerate_from o (x ∷ xs) =
    (omega arith, All-imp (λ t h. omega arith) (enumerate (suc o) xs) (enumerate_from (suc o) xs))

pub enumerate_below :
    (o : ℕ) (xs : List SocketAddr) → All (λ t. t.index < o + length xs) (enumerate o xs)
enumerate_below o [] = tt
enumerate_below o (x ∷ xs) =
    (omega arith, All-imp (λ t h. omega arith) (enumerate (suc o) xs) (enumerate_below (suc o) xs))

pub DifferInIndex-enumerate : (o : ℕ) (xs : List SocketAddr) → DifferInIndex (enumerate o xs)
DifferInIndex-enumerate o [] = tt
DifferInIndex-enumerate o (x ∷ xs) = (
  All-imp (λ t h e. absurd (omega arith)) (enumerate (suc o) xs) (enumerate_from (suc o) xs),
  DifferInIndex-enumerate (suc o) xs,
)

-- A result that is stored at an index changes the entry of the task with that index.
pub set-map-enumerate :
    (f : Task → Option TcpResult) (o : ℕ) (xs : List SocketAddr) (i j : ℕ) (v : Option TcpResult)
    → j ≡ o + i
    → set (map f (enumerate o xs)) i v ≡ map (λ t. if t.index == j then v else f t) (enumerate o xs)
set-map-enumerate f o [] i j v h = refl
set-map-enumerate f o (x ∷ xs) zero j v h =
    let at_head : (o == j) ≡ true = ground arith in
    rw at_head (
      ap (λ ys. v ∷ ys)
        (map_congr f (λ t. if t.index == j then v else f t) (enumerate (suc o) xs)
          (All-imp (λ t k. past t k) (enumerate (suc o) xs) (enumerate_from (suc o) xs))))
  where
    past : (t : Task) → suc o ≤ t.index → f t ≡ (if t.index == j then v else f t)
    past t k = ground arith
set-map-enumerate f o (x ∷ xs) (suc i) j v h =
    let not_at_head : (o == j) ≡ false = ground arith in
    rw not_at_head (
      ap (λ ys. f (record { index = o; address = x }) ∷ ys)
        (set-map-enumerate f (suc o) xs i j v (omega arith)))
