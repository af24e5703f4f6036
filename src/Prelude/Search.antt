-- ===== src/Prelude/Search.antt =====
-- Elements of a list that pass a test, those that are kept by it, and all of them.
use Prim.Native.Nat.{ℕ, zero, suc, ◌<◌}
use mathlib.Core.Path.{◌≡◌, refl, ap, sym, subst, ◌∙◌}
use mathlib.Core.Option.{some, some-injective}
use mathlib.Core.Logic.{◌≢◌, inl, inr}
use mathlib.Core.Bool.{Bool, true, false}
use mathlib.Core.List.Memᴰ
use mathlib.Core.List.{List, [], ◌∷◌, Memᴰ}
use native.Mathlib.Omega.{arith}
use netwhy.Prelude.Tests.{Bool-cases, ◌==◌, if◌then◌else◌}
use netwhy.Prelude.Lists.{is_empty, length, any, all, keep, find, All}

module _ {ℓ} {A : Type ℓ} (p : A → Bool) where
  -- What is kept is empty only if nothing passes.
  pub keep-eq-nil : (xs : List A) → keep p xs ≡ [] → any p xs ≡ false
  keep-eq-nil [] h = refl
  keep-eq-nil (x ∷ xs) h = ground (arith, keep-eq-nil xs)

  mem_if :
      {a x : A} (b : Bool) (xs : List A)
      → p x ≡ b
      → (Memᴰ a xs → p a ≡ true)
      → Memᴰ a (if b then x ∷ xs else xs)
      → p a ≡ true
  mem_if true xs e later (Memᴰ.head f) = cc (ap p f)
  mem_if true xs e later (Memᴰ.tail m) = later m
  mem_if false xs e later m = later m

  -- What is kept passes.
  pub mem-keep : {a : A} (xs : List A) → Memᴰ a (keep p xs) → p a ≡ true
  mem-keep [] h = absurd (Memᴰ.not-nil h)
  mem-keep (x ∷ xs) h = mem_if (p x) (keep p xs) refl (mem-keep xs) h

  pub All-of_all : (xs : List A) → all p xs ≡ true → All (λ x. p x ≡ true) xs
  All-of_all [] h = tt
  All-of_all (x ∷ xs) h = (ground arith, All-of_all xs (ground arith))

  pub all_of_All : (xs : List A) → All (λ x. p x ≡ true) xs → all p xs ≡ true
  all_of_All [] h = refl
  all_of_All (x ∷ xs) h = ground (arith, all_of_All xs)

module _ {ℓ κ μ} {A : Type ℓ} {P : A → Type κ} {Q : A → Type μ} where
  pub All-imp : ((x : A) → P x → Q x) → (xs : List A) → All P xs → All Q xs
  All-imp f [] h = tt
  All-imp f (x ∷ xs) h = (f x h.0, All-imp f xs h.1)

module _ {ℓ} {A : Type ℓ} (p : A → Bool) where
  of_mem_if :
      {a x : A} (b : Bool) (xs : List A) {ys : List A}
      → (Memᴰ a xs → Memᴰ a ys)
      → Memᴰ a (if b then x ∷ xs else xs)
      → Memᴰ a (x ∷ ys)
  of_mem_if true xs later (Memᴰ.head f) = Memᴰ.head f
  of_mem_if true xs later (Memᴰ.tail m) = Memᴰ.tail (later m)
  of_mem_if false xs later m = Memᴰ.tail (later m)

  -- What is kept was there.
  pub mem_of_mem-keep : {a : A} (xs : List A) → Memᴰ a (keep p xs) → Memᴰ a xs
  mem_of_mem-keep [] h = absurd (Memᴰ.not-nil h)
  mem_of_mem-keep (x ∷ xs) h = of_mem_if (p x) (keep p xs) (mem_of_mem-keep xs) h

  All-of_if {κ} :
      (P : A → Type κ) (b : Bool) (x : A) (xs : List A)
      → All P (if b then x ∷ xs else xs)
      → (b ≡ true → P x) × All P xs
  All-of_if P true x xs h = ((λ _. h.0), h.1)
  All-of_if P false x xs h = ((λ e. cc), h)

  -- What holds of all that is kept holds of all that pass.
  pub All-of_All-keep {κ} :
      (P : A → Type κ) (xs : List A) → All P (keep p xs) → All (λ x. p x ≡ true → P x) xs
  All-of_All-keep P [] h = tt
  All-of_All-keep P (x ∷ xs) h =
      let (now, later) = All-of_if P (p x) x (keep p xs) h in (now, All-of_All-keep P xs later)

module _ {ℓ} {A : Type ℓ} (p : A → Bool) where
  pub mem_of_any : (xs : List A) → any p xs ≡ true → (a : A) × Memᴰ a xs × (p a ≡ true)
  mem_of_any [] h = cc
  mem_of_any (x ∷ xs) h = elim (Bool-cases (p x)) [
    | inl e ↦ (x, Memᴰ.head refl, e)
    | inr e ↦ let (a, m, q) = mem_of_any xs (ground arith) in (a, Memᴰ.tail m, q)
  ]

  pub any_of_mem : {a : A} (xs : List A) → Memᴰ a xs → p a ≡ true → any p xs ≡ true
  any_of_mem [] m h = elim m [ ]
  any_of_mem (x ∷ xs) (Memᴰ.head e) h = ground (arith, ap p e)
  any_of_mem (x ∷ xs) (Memᴰ.tail m) h = ground (arith, any_of_mem xs m h)

  pub All-of_not_any : (xs : List A) → any p xs ≡ false → All (λ x. p x ≡ false) xs
  All-of_not_any [] h = tt
  All-of_not_any (x ∷ xs) h = (ground arith, All-of_not_any xs (ground arith))

  pub nonempty : (xs : List A) → is_empty xs ≡ false → xs ≢ []
  nonempty [] h = λ _. cc
  nonempty (x ∷ xs) h = λ e. cc

module _ {ℓ} {A : Type ℓ} where
  pub All-mem {κ} : (P : A → Type κ) {a : A} {xs : List A} → All P xs → Memᴰ a xs → P a
  All-mem P h (Memᴰ.head e) = subst P (sym e) h.0
  All-mem P h (Memᴰ.tail m) = All-mem P h.1 m

  pub empty : (xs : List A) → is_empty xs ≡ true → xs ≡ []
  empty [] h = refl
  empty (x ∷ xs) h = cc

  pub length_nonempty : (xs : List A) → is_empty xs ≡ false → zero < length xs
  length_nonempty [] h = cc
  length_nonempty (x ∷ xs) h = omega arith

-- The numbers below a bound, so that a test can be run on each.
unfoldable pub below : ℕ → List ℕ
below zero = []
below (suc n) = n ∷ below n

mem-below : (bound c : ℕ) → c < bound → Memᴰ c (below bound)
unfolding below
mem-below zero c h = absurd (omega arith)
mem-below (suc bound) c h = elim (Bool-cases (c == bound)) [
  | inl e ↦ Memᴰ.head (ground arith)
  | inr e ↦ Memᴰ.tail (mem-below bound c (ground arith))
]

pub holds_below :
    (bound : ℕ) (p : ℕ → Bool) → all p (below bound) ≡ true → (c : ℕ) → c < bound → p c ≡ true
holds_below bound p h c lt = All-mem _ (All-of_all p (below bound) h) (mem-below bound c lt)

module _ {ℓ} {A : Type ℓ} (p : A → Bool) where
  -- What is found is there and passes.
  pub mem_of_find : (xs : List A) (a : A) → find p xs ≡ some a → Memᴰ a xs × (p a ≡ true)
  mem_of_find [] a h = cc
  mem_of_find (x ∷ xs) a h = of_test (mem_of_find xs a) (p x) refl h
    where
      of_test :
          (find p xs ≡ some a → Memᴰ a xs × (p a ≡ true))
          → (b : Bool) → p x ≡ b
          → (if b then some x else find p xs) ≡ some a
          → Memᴰ a (x ∷ xs) × (p a ≡ true)
      of_test later true e k =
          let same = some-injective x a k in (Memᴰ.head (sym same), ap p (sym same) ∙ e)
      of_test later false e k = let (m, q) = later k in (Memᴰ.tail m, q)
