-- ===== src/Compare/Limit.antt =====
-- `diff_values` of src/compare.rs keeps the first 256 of all the differences.
use mathlib.Core.List.{append_assoc, append-nil}
use netwhy.Prelude.{
  ℕ, zero, suc, ◌≤◌, ◌<◌, ◌≡◌, ◌⊎◌, refl, ap, sym, ◌∙◌, inl, inr, true, false, ◌||◌, String, Option,
  none, some, List, [], ◌∷◌, ◌++◌, str_eq, length, take, length-append, length-take, Bool-cases,
  Option-cases, ltb, ltb→lt, arith,
}
use netwhy.Model.{ComparisonChange}
use netwhy.Json.{Value, Items, Members, items, get, as_object, as_array}
use netwhy.Compare.{
  max_changes, Diff, is_full, value_eq, is_volatile_path, change_at, keys_of_both, child_key,
  child_index, push_change, guarded, over_keys, diff_values, diff_key, diff_items,
}
use netwhy.Compare.Differences.{
  one_change, unless_equal, of_keys, differences, differences_at, differences_from,
}

not_ltb→le : (a b : ℕ) → ltb a b ≡ false → b ≤ a
not_ltb→le a b h = ground arith

module _ {ℓ} {A : Type ℓ} where
  take_all : (n : ℕ) (xs : List A) → length xs ≤ n → take n xs ≡ xs
  take_all zero [] h = refl
  take_all zero (x ∷ xs) h = absurd (omega arith)
  take_all (suc n) [] h = refl
  take_all (suc n) (x ∷ xs) h = ap (λ ys. x ∷ ys) (take_all n xs (omega arith))

  take_full : (n : ℕ) (xs ys : List A) → length xs ≡ n → take n (xs ++ ys) ≡ xs
  take_full zero [] ys h = refl
  take_full zero (x ∷ xs) ys h = absurd (omega arith)
  take_full (suc n) [] ys h = absurd (omega arith)
  take_full (suc n) (x ∷ xs) ys h = ap (λ zs. x ∷ zs) (take_full n xs ys (omega arith))

  take_twice : (n : ℕ) (xs ys : List A) → take n (take n xs ++ ys) ≡ take n (xs ++ ys)
  take_twice zero xs ys = refl
  take_twice (suc n) [] ys = refl
  take_twice (suc n) (x ∷ xs) ys = ap (λ zs. x ∷ zs) (take_twice n xs ys)

  length-take_long : (n : ℕ) (xs : List A) → n ≤ length xs → length (take n xs) ≡ n
  length-take_long zero xs h = refl
  length-take_long (suc n) [] h = absurd (omega arith)
  length-take_long (suc n) (x ∷ xs) h = ap suc (length-take_long n xs (omega arith))

-- The state after differences were met: the first 256 are kept; the flag is up where one is lost,
-- stays up, and goes up only where 256 are kept.
abbrev pub After : Diff → List ComparisonChange → Diff → Type 0
After s ds t =
    (t.changes ≡ take max_changes (s.changes ++ ds))
    × (s.truncated ≡ true → t.truncated ≡ true)
    × (max_changes < length (s.changes ++ ds) → t.truncated ≡ true)
    × (t.truncated ≡ true → (s.truncated ≡ true) ⊎ (length t.changes ≡ max_changes))

-- The function meets the differences, from any state within the limit.
abbrev pub Meets : (Diff → Diff) → List ComparisonChange → Type 0
Meets f ds = (s : Diff) → length s.changes ≤ max_changes → After s ds (f s)

Meets-nil : Meets (λ s. s) []
Meets-nil s h =
    rw append-nil
      (sym (take_all max_changes s.changes h), (λ e. e), (λ l. absurd (omega arith)), (λ e. inl e))

full_length :
    (s : Diff) → is_full s ≡ true → length s.changes ≤ max_changes → length s.changes ≡ max_changes
full_length s e h = ground arith

After-full :
    (s : Diff) (ds : List ComparisonChange)
    → length s.changes ≡ max_changes
    → After s ds (record s { truncated = true })
After-full s ds e =
    (sym (take_full max_changes s.changes ds e), (λ _. refl), (λ _. refl), (λ _. inr e))

Meets-push_change :
    (path : String) (left right : Value)
    → Meets (push_change path left right) (one_change path left right)
unfolding push_change
Meets-push_change path left right s h = elim (Bool-cases (is_volatile_path path)) [
  | inl e ↦ rw e (Meets-nil s h)
  | inr e ↦ elim (Bool-cases (is_full s)) [
    | inl f ↦ rw (e, f) (After-full s _ (full_length s f h))
    | inr f ↦
        let longer = length-append s.changes (change_at path left right ∷ []) in
        rw (e, f)
          (
            sym (take_all max_changes _ (ground arith)),
            (λ k. k),
            (λ k. absurd (ground arith)),
            (λ k. inl k),
          )
  ]
]

Meets-guarded :
    (path : String) (left right : Value) (later : Diff → Diff) (ds : List ComparisonChange)
    → Meets later ds
    → Meets (λ s. guarded path left right s (later s)) (unless_equal path left right ds)
Meets-guarded path left right later ds m s h =
    elim (Bool-cases (is_volatile_path path || value_eq left right)) [
      | inl e ↦ rw e (Meets-nil s h)
      | inr e ↦ elim (Bool-cases (is_full s)) [
        | inl f ↦ rw (e, f) (After-full s ds (full_length s f h))
        | inr f ↦ rw (e, f) (m s h)
      ]
    ]

Meets-append :
    (f g : Diff → Diff) (ds es : List ComparisonChange)
    → Meets f ds
    → Meets g es
    → Meets (λ s. g (f s)) (ds ++ es)
Meets-append f g ds es m n s h =
    let (e, up, lost, only) = m s h in
    let (e2, up2, lost2, only2) = n (f s) (rw e (length-take max_changes all)) in
    (
      e2 ∙ rw e (take_twice max_changes all es ∙ ap (take max_changes) assoc),
      (λ k. up2 (up k)),
      (λ k. elim (Bool-cases (ltb max_changes (length all))) [
        | inl l ↦ up2 (lost (ltb→lt max_changes (length all) l))
        | inr l ↦
            let kept : (f s).changes ≡ all =
              e ∙ take_all max_changes all (not_ltb→le max_changes (length all) l) in
            lost2 (rw (kept, assoc) k)
      ]),
      (λ k. elim (only2 k) [
        | inr full ↦ inr full
        | inl t ↦ elim (only t) [
          | inl t ↦ inl t
          | inr full ↦ inr (
              rw e2 (
                length-take_long max_changes _
                  (omega (arith, full, length-append (f s).changes es))))
        ]
      ]),
    )
  where
    all : List ComparisonChange
    all = s.changes ++ ds

    assoc : (s.changes ++ ds) ++ es ≡ s.changes ++ (ds ++ es)
    assoc = append_assoc s.changes ds es

module _ (step : String → Diff → Diff) (at : String → List ComparisonChange) where
  Meets-over_keys :
      ((key : String) → Meets (step key) (at key))
      → (ks : List String) → Meets (over_keys step ks) (of_keys at ks)
  Meets-over_keys h [] = Meets-nil
  Meets-over_keys h (k ∷ ks) =
      Meets-append (step k) (over_keys step ks) (at k) (of_keys at ks) (h k) (Meets-over_keys h ks)

mutual
  unfolding diff_values differences

  pub Meets-diff_values :
      (path : String) (left right : Value)
      → Meets (diff_values path left right) (differences path left right)
  Meets-diff_values path (Value.object ms) right =
      Meets-guarded path (Value.object ms) right _ _ (elim (Option-cases (as_object right)) [
        | inl e ↦ rw e (Meets-push_change path (Value.object ms) right)
        | inr (ns, e) ↦ rw e (
            Meets-over_keys _ _ (λ key. Meets-diff_key ms key (child_key path key) (get key ns))
              (keys_of_both ms ns))
      ])
  Meets-diff_values path (Value.array vs) right =
      Meets-guarded path (Value.array vs) right _ _ (elim (Option-cases (as_array right)) [
        | inl e ↦ rw e (Meets-push_change path (Value.array vs) right)
        | inr (ws, e) ↦ rw e (Meets-diff_items path 0 vs (items ws))
      ])
  Meets-diff_values path Value.null right =
      Meets-guarded path Value.null right _ _ (Meets-push_change path Value.null right)
  Meets-diff_values path (Value.bool b) right =
      Meets-guarded path (Value.bool b) right _ _ (Meets-push_change path (Value.bool b) right)
  Meets-diff_values path (Value.number n) right =
      Meets-guarded path (Value.number n) right _ _ (Meets-push_change path (Value.number n) right)
  Meets-diff_values path (Value.string t) right =
      Meets-guarded path (Value.string t) right _ _ (Meets-push_change path (Value.string t) right)

  Meets-diff_key :
      (ms : Members) (key path : String) (right : Option Value)
      → Meets (diff_key ms key path right) (differences_at ms key path right)
  Meets-diff_key Members.end key path none = Meets-push_change path Value.null Value.null
  Meets-diff_key Members.end key path (some right) = Meets-push_change path Value.null right
  Meets-diff_key (Members.member k v ms) key path none = elim (Bool-cases (str_eq key k)) [
    | inl e ↦ rw e (Meets-push_change path v Value.null)
    | inr e ↦ rw e (Meets-diff_key ms key path none)
  ]
  Meets-diff_key (Members.member k v ms) key path (some w) = elim (Bool-cases (str_eq key k)) [
    | inl e ↦ rw e (Meets-diff_values path v w)
    | inr e ↦ rw e (Meets-diff_key ms key path (some w))
  ]

  Meets-diff_items :
      (path : String) (index : ℕ) (vs : Items) (ws : List Value)
      → Meets (diff_items path index vs ws) (differences_from path index vs ws)
  Meets-diff_items path index Items.nil [] = Meets-nil
  Meets-diff_items path index Items.nil (w ∷ ws) =
      Meets-append _ _ _ _ (Meets-push_change (child_index path index) Value.null w)
        (Meets-diff_items path (suc index) Items.nil ws)
  Meets-diff_items path index (Items.item v vs) [] =
      Meets-append _ _ _ _ (Meets-push_change (child_index path index) v Value.null)
        (Meets-diff_items path (suc index) vs [])
  Meets-diff_items path index (Items.item v vs) (w ∷ ws) =
      Meets-append _ _ _ _ (Meets-diff_values (child_index path index) v w)
        (Meets-diff_items path (suc index) vs ws)
