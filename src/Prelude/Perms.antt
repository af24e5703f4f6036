-- ===== src/Prelude/Perms.antt =====
-- Orderings of a list: what the iterator adaptors answer on a rearranged list.
use mathlib.Core.Path.{◌≡◌, refl, ap, ◌∙◌, subst}
use mathlib.Core.Bool.{Bool, true, false}
use mathlib.Core.List.Permᴰ
use mathlib.Core.List.{List, ◌∷◌, Permᴰ}
use mathlib.Core.List.Permᴰ.{nil, cons, swap, trans}
use native.Mathlib.Omega.{arith}
use netwhy.Prelude.Tests.{if◌then◌else◌}
use netwhy.Prelude.Lists.{any, all, keep, is_empty, All}

module _ {ℓ} {A : Type ℓ} where
  pub any-perm : (p : A → Bool) {xs ys : List A} → Permᴰ xs ys → any p xs ≡ any p ys
  any-perm p nil = refl
  any-perm p (cons e h) = cc (any-perm p h, ap p e)
  any-perm p (swap {a = a} {b = b} {a' = c} {b' = d} e f) = ground (arith, ap p e, ap p f)
  any-perm p (trans h k) = any-perm p h ∙ any-perm p k

  pub all-perm : (p : A → Bool) {xs ys : List A} → Permᴰ xs ys → all p xs ≡ all p ys
  all-perm p nil = refl
  all-perm p (cons e h) = cc (all-perm p h, ap p e)
  all-perm p (swap {a = a} {b = b} {a' = c} {b' = d} e f) = ground (arith, ap p e, ap p f)
  all-perm p (trans h k) = all-perm p h ∙ all-perm p k

  pub is_empty-perm : {xs ys : List A} → Permᴰ xs ys → is_empty xs ≡ is_empty ys
  is_empty-perm nil = refl
  is_empty-perm (cons e h) = refl
  is_empty-perm (swap e f) = refl
  is_empty-perm (trans h k) = is_empty-perm h ∙ is_empty-perm k

  keep_cons :
      (b c : Bool) {x y : A} {k l : List A}
      → b ≡ c
      → x ≡ y
      → Permᴰ k l
      → Permᴰ (if b then x ∷ k else k) (if c then y ∷ l else l)
  keep_cons true true e f h = cons f h
  keep_cons false false e f h = h
  keep_cons true false e f h = cc
  keep_cons false true e f h = cc

  keep_swap :
      (b c b' c' : Bool) {x y x' y' : A} (l : List A)
      → b ≡ c'
      → c ≡ b'
      → x ≡ y'
      → y ≡ x'
      → Permᴰ
          (if b then x ∷ (if c then y ∷ l else l) else if c then y ∷ l else l)
          (if b' then x' ∷ (if c' then y' ∷ l else l) else if c' then y' ∷ l else l)
  keep_swap true true true true l _ _ e f = swap e f
  keep_swap true false false true l _ _ e f = cons e (Permᴰ.refl l)
  keep_swap false true true false l _ _ e f = cons f (Permᴰ.refl l)
  keep_swap false false false false l _ _ e f = Permᴰ.refl l
  keep_swap _ _ _ _ l p q e f = cc

  pub keep-perm : (p : A → Bool) {xs ys : List A} → Permᴰ xs ys → Permᴰ (keep p xs) (keep p ys)
  keep-perm p nil = nil
  keep-perm p (cons e h) = keep_cons _ _ (ap p e) e (keep-perm p h)
  keep-perm p (swap e f) = keep_swap _ _ _ _ _ (ap p e) (ap p f) e f
  keep-perm p (trans h k) = trans (keep-perm p h) (keep-perm p k)

  pub All-perm {κ} : (P : A → Type κ) {xs ys : List A} → Permᴰ xs ys → All P xs → All P ys
  All-perm P nil h = h
  All-perm P (cons e k) h = (subst P e h.0, All-perm P k h.1)
  All-perm P (swap e f) h = (subst P f h.1.0, (subst P e h.0, h.1.1))
  All-perm P (trans k l) h = All-perm P l (All-perm P k h)
