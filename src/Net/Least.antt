-- ===== src/Net/Least.antt =====
-- `min_by_key` by address: what it finds, and that the order of the list does not matter where the
-- addresses differ.
use mathlib.Core.Path.{subst, ap₂}
use mathlib.Core.List.{Permᴰ, Memᴰ}
use mathlib.Core.List.Memᴰ.{head, tail}
use mathlib.Core.List.Permᴰ.{nil, cons, swap, trans}
use netwhy.Prelude.{
  ◌≡◌, ◌≢◌, inl, inr, refl, sym, ap, ◌∙◌, Bool, true, false, Option, none, some, List, [], ◌∷◌,
  arith, if◌then◌else◌, All, keep, Option-cases, Bool-cases,
}
use netwhy.Prelude.Perms.{All-perm}
use netwhy.Net.{SocketAddr}
use netwhy.Net.Order.{
  addr_lt, addr_lt_irrefl, addr_lt_asymm, addr_not_lt_trans, addr_lt_total, lesser, min_by_address,
}

module _ {ℓ} {A : Type ℓ} (address : A → SocketAddr) where
  -- No two elements of the list have one address.
  abbrev pub AreDistinct : List A → Type 0
  AreDistinct [] = Unit
  AreDistinct (x ∷ xs) = All (λ y. address x ≢ address y) xs × AreDistinct xs

  -- The element is in the list, and no address of the list is below its own.
  abbrev pub IsLeast : List A → A → Type ℓ
  IsLeast xs m = Memᴰ m xs × All (λ y. addr_lt (address y) (address m) ≡ false) xs

module _ {ℓ} {A : Type ℓ} where
  All-if {κ} :
      (P : A → Type κ) (b : Bool) {x : A} (xs : List A)
      → P x
      → All P xs
      → All P (if b then x ∷ xs else xs)
  All-if P true xs h hs = (h, hs)
  All-if P false xs h hs = hs

  pub All-keep {κ} : (P : A → Type κ) (p : A → Bool) (xs : List A) → All P xs → All P (keep p xs)
  All-keep P p [] h = tt
  All-keep P p (x ∷ xs) h = All-if P (p x) (keep p xs) h.0 (All-keep P p xs h.1)

module _ {ℓ} {A : Type ℓ} (address : A → SocketAddr) where
  AreDistinct-perm :
      {xs ys : List A} → Permᴰ xs ys → AreDistinct address xs → AreDistinct address ys
  AreDistinct-perm nil h = tt
  AreDistinct-perm (cons {l₂ = l} e k) h =
      (subst (λ z. All (λ y. address z ≢ address y) l) e (All-perm _ k h.0), AreDistinct-perm k h.1)
  AreDistinct-perm (swap {l = l} e f) h = (
    (
      (λ p. h.0.0 (ap address e ∙ sym p ∙ sym (ap address f))),
      subst (λ z. All (λ y. address z ≢ address y) l) f h.1.0,
    ),
    (subst (λ z. All (λ y. address z ≢ address y) l) e h.0.1, h.1.1),
  )
  AreDistinct-perm (trans k l) h = AreDistinct-perm l (AreDistinct-perm k h)

  AreDistinct-if :
      (b : Bool) (x : A) (xs : List A)
      → All (λ y. address x ≢ address y) xs
      → AreDistinct address xs
      → AreDistinct address (if b then x ∷ xs else xs)
  AreDistinct-if true x xs h hs = (h, hs)
  AreDistinct-if false x xs h hs = hs

  pub AreDistinct-keep :
      (p : A → Bool) (xs : List A) → AreDistinct address xs → AreDistinct address (keep p xs)
  AreDistinct-keep p [] h = tt
  AreDistinct-keep p (x ∷ xs) h =
      AreDistinct-if (p x) x (keep p xs) (All-keep _ p xs h.0) (AreDistinct-keep p xs h.1)

  lesser_comm :
      (a b : A) (o : Option A)
      → address a ≢ address b
      → lesser address a (lesser address b o) ≡ lesser address b (lesser address a o)
  lesser_comm a b none d =
      ground (arith, addr_lt_asymm (address a) (address b), addr_lt_total (address a) (address b))
  lesser_comm a b (some m) d = ground (
    arith,
    addr_lt_asymm (address a) (address b),
    addr_lt_total (address a) (address b),
    addr_not_lt_trans (address a) (address m) (address b),
    addr_not_lt_trans (address b) (address m) (address a),
    addr_not_lt_trans (address a) (address b) (address m),
    addr_not_lt_trans (address b) (address a) (address m),
    addr_lt_asymm (address a) (address m),
    addr_lt_asymm (address b) (address m),
  )

  -- Where the addresses differ, the order of the list does not matter.
  pub min_by_address-perm :
      {xs ys : List A}
      → AreDistinct address xs
      → Permᴰ xs ys
      → min_by_address address xs ≡ min_by_address address ys
  unfolding min_by_address
  min_by_address-perm d nil = refl
  min_by_address-perm d (cons e k) = ap₂ (lesser address) e (min_by_address-perm d.1 k)
  min_by_address-perm d (swap {a = a} {b = b} {l = l} e f) =
      rw (← e, ← f) (lesser_comm a b (min_by_address address l) d.0.0)
  min_by_address-perm d (trans k l) =
      min_by_address-perm d k ∙ min_by_address-perm (AreDistinct-perm k d) l

  pub empty_of_min : (xs : List A) → min_by_address address xs ≡ none → xs ≡ []
  unfolding min_by_address
  empty_of_min [] e = refl
  empty_of_min (x ∷ xs) e = ground arith

  IsLeast-single : (x : A) (xs : List A) → xs ≡ [] → IsLeast address (x ∷ xs) x
  IsLeast-single x [] e = (head refl, (addr_lt_irrefl (address x), tt))
  IsLeast-single x (y ∷ ys) e = cc

  IsLeast-later :
      (x y : A) (xs : List A)
      → addr_lt (address y) (address x) ≡ true
      → IsLeast address xs y
      → IsLeast address (x ∷ xs) y
  IsLeast-later x y xs lt h = (tail h.0, (addr_lt_asymm (address y) (address x) lt, h.1))

  All-not_below :
      (x y : A) (xs : List A)
      → addr_lt (address y) (address x) ≡ false
      → All (λ z. addr_lt (address z) (address y) ≡ false) xs
      → All (λ z. addr_lt (address z) (address x) ≡ false) xs
  All-not_below x y [] le h = tt
  All-not_below x y (z ∷ xs) le h =
      (addr_not_lt_trans (address x) (address y) (address z) le h.0, All-not_below x y xs le h.1)

  IsLeast-earlier :
      (x y : A) (xs : List A)
      → addr_lt (address y) (address x) ≡ false
      → IsLeast address xs y
      → IsLeast address (x ∷ xs) x
  IsLeast-earlier x y xs le h =
      (head refl, (addr_lt_irrefl (address x), All-not_below x y xs le h.1))

  -- What is found is in the list, and no address of the list is below its own.
  pub min_by_address-IsLeast :
      (xs : List A) (m : A) → min_by_address address xs ≡ some m → IsLeast address xs m
  unfolding min_by_address
  min_by_address-IsLeast [] m e = cc
  min_by_address-IsLeast (x ∷ xs) m e = elim (Option-cases (min_by_address address xs)) [
    | inl n ↦
        subst (IsLeast address (x ∷ xs)) (ground arith) (IsLeast-single x xs (empty_of_min xs n))
    | inr (y, p) ↦
        let h = min_by_address-IsLeast xs y p in
        elim (Bool-cases (addr_lt (address y) (address x))) [
          | inl lt ↦ subst (IsLeast address (x ∷ xs)) (ground arith) (IsLeast-later x y xs lt h)
          | inr le ↦ subst (IsLeast address (x ∷ xs)) (ground arith) (IsLeast-earlier x y xs le h)
        ]
  ]
