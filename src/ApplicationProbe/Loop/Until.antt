-- ===== src/ApplicationProbe/Loop/Until.antt =====
-- The loops over addresses of src/probe/application.rs: which addresses they try, and when they stop.
use netwhy.Prelude.{
  Bool, true, false, ◌≡◌, refl, ap, List, [], ◌∷◌, ◌++◌, map, any, Bool-cases, inl, inr, ◌⊎◌,
}
use netwhy.ApplicationProbe.Loop.{until}

-- All were tried and none got through, or the last one did and none before it.
pub record IsRun {ℓ κ} {A : Type ℓ} {R : Type κ} (is_reached : R → Bool) (attempt : A → R)
    (addresses : List A) (results : List R) : Type (ℓ ⊔ κ) where
  pub tried : List A
  pub rest : List A
  pub in_order : addresses ≡ tried ++ rest
  pub each : results ≡ map attempt tried
  pub ended :
      ((rest ≡ []) × (any is_reached results ≡ false))
      ⊎ ((before : List R) × (last : R) × (results ≡ before ++ last ∷ [])
          × (any is_reached before ≡ false)
          × (is_reached last ≡ true))

module _ {ℓ κ} {A : Type ℓ} {R : Type κ} (is_reached : R → Bool) (attempt : A → R) where
  extend :
      (c : A) (cs : List A) (out : List R)
      → is_reached (attempt c) ≡ false
      → IsRun is_reached attempt cs out
      → IsRun is_reached attempt (c ∷ cs) (attempt c ∷ out)
  extend c cs out h r = record {
    tried = c ∷ r.tried;
    rest = r.rest;
    in_order = ap (λ t. c ∷ t) r.in_order;
    each = ap (λ t. attempt c ∷ t) r.each;
    ended = elim r.ended [
      | inl (all_tried, none_got) ↦ inl (all_tried, rw h none_got)
      | inr (before, last, split, none_got, got) ↦
          inr (attempt c ∷ before, last, ap (λ t. attempt c ∷ t) split, rw h none_got, got)
    ];
  }

  pub until-IsRun : (cs : List A) → IsRun is_reached attempt cs (until is_reached attempt cs)
  until-IsRun [] = record {
    tried = [];
    rest = [];
    in_order = refl;
    each = refl;
    ended = inl (refl, refl);
  }
  until-IsRun (c ∷ cs) = elim (Bool-cases (is_reached (attempt c))) [
    | inl b ↦ rw b (record {
      tried = c ∷ [];
      rest = cs;
      in_order = refl;
      each = refl;
      ended = inr ([], attempt c, refl, refl, b);
    })
    | inr b ↦ rw b (extend c cs (until is_reached attempt cs) b (until-IsRun cs))
  ]

  -- The loop gets through if an attempt on some address does.
  pub any-until :
      (cs : List A) → any is_reached (until is_reached attempt cs) ≡ any is_reached (map attempt cs)
  any-until [] = refl
  any-until (c ∷ cs) = elim (Bool-cases (is_reached (attempt c))) [
    | inl b ↦ rw (b, b) refl
    | inr b ↦ rw (b, b) (any-until cs)
  ]
