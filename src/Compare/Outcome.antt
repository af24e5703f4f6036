-- ===== src/Compare/Outcome.antt =====
-- What a comparison of two reports says: src/compare.rs.
use netwhy.Prelude.{
  ℕ, suc, ◌<◌, ◌≡◌, ◌↔◌, refl, ap, sym, ◌∙◌, true, false, String, List, [], ◌∷◌, arith,
  if◌then◌else◌, take, length, is_empty, inl, inr, Bool-cases, eq_refl,
}
use netwhy.Prelude.Results.{Result}
use netwhy.Model.{Status, ToolInfo, ComparisonChange, ComparisonInput, ComparisonReport}
use netwhy.Json.{Value, Items, Members}
use netwhy.Compare.{
  max_changes, Diff, guarded, value_eq, items_eq, members_eq, diff_values, is_volatile_path,
}
use netwhy.Compare.Differences.{differences}
use netwhy.Compare.Limit.{Meets-diff_values}
use netwhy.Compare.Files.{describe_input, compare_values, compare_files}

module _ (tool : ToolInfo) (left_input right_input : ComparisonInput) (left right : Value) where
  abbrev report : ComparisonReport
  report = compare_values tool left_input right_input left right

  abbrev all : List ComparisonChange
  all = differences "" left right

  take_nil : (n : ℕ) (xs : List ComparisonChange) → take (suc n) xs ≡ [] → xs ≡ []
  take_nil n [] e = refl
  take_nil n (x ∷ xs) e = cc

  overall_of :
      (cs : List ComparisonChange)
      → ((if is_empty cs then Status.pass else Status.warn) ≡ Status.pass) ↔ (cs ≡ [])
  overall_of [] = ((λ e. refl), (λ e. refl))
  overall_of (c ∷ cs) = ((λ e. cc), (λ e. cc))

  -- The changes are the first 256 of all the differences; the flag is up where there are more, and
  -- only where 256 are reported; and the comparison passes exactly when there are no differences.
  pub compare_values-differences :
      (report.changes ≡ take max_changes all)
      × (max_changes < length all → report.truncated ≡ true)
      × (report.truncated ≡ true → length report.changes ≡ max_changes)
      × ((report.overall ≡ Status.pass) ↔ (all ≡ []))
  unfolding compare_values
  compare_values-differences =
      let (e, _, lost, only) =
        Meets-diff_values "" left right (record { changes = []; truncated = false })
          (omega arith) in
      (
        e,
        lost,
        (λ t. elim (only t) [ inl f ↦ cc | inr full ↦ full ]),
        (
          (λ p. take_nil 255 all (sym e ∙ (overall_of _).0 p)),
          (λ n. (overall_of _).1 (e ∙ ap (take max_changes) n)),
        ),
      )

mutual
  unfolding value_eq

  value_eq_refl : (v : Value) → value_eq v v ≡ true
  value_eq_refl Value.null = refl
  value_eq_refl (Value.bool b) = ground arith
  value_eq_refl (Value.number n) = ground arith
  value_eq_refl (Value.string s) = eq_refl s
  value_eq_refl (Value.array vs) = items_eq_refl vs
  value_eq_refl (Value.object ms) = members_eq_refl ms

  items_eq_refl : (vs : Items) → items_eq vs vs ≡ true
  items_eq_refl Items.nil = refl
  items_eq_refl (Items.item v vs) = rw (value_eq_refl v, items_eq_refl vs) refl

  members_eq_refl : (ms : Members) → members_eq ms ms ≡ true
  members_eq_refl Members.end = refl
  members_eq_refl (Members.member k v ms) = rw (eq_refl k, value_eq_refl v, members_eq_refl ms) refl

guarded_same : (path : String) (v : Value) (s later : Diff) → guarded path v v s later ≡ s
guarded_same path v s later = elim (Bool-cases (is_volatile_path path)) [
  | inl e ↦ rw e refl
  | inr e ↦ rw (e, value_eq_refl v) refl
]

diff_values_same : (path : String) (v : Value) (s : Diff) → diff_values path v v s ≡ s
unfolding diff_values
diff_values_same path Value.null s = guarded_same path Value.null s _
diff_values_same path (Value.bool b) s = guarded_same path (Value.bool b) s _
diff_values_same path (Value.number n) s = guarded_same path (Value.number n) s _
diff_values_same path (Value.string t) s = guarded_same path (Value.string t) s _
diff_values_same path (Value.array vs) s = guarded_same path (Value.array vs) s _
diff_values_same path (Value.object ms) s = guarded_same path (Value.object ms) s _

-- Two files that hold one report compare as equivalent.
pub compare_files_same :
    (tool : ToolInfo) (left_path right_path : String) (v : Value) (left right : ComparisonInput)
    → describe_input left_path v ≡ Result.ok left
    → describe_input right_path v ≡ Result.ok right
    → (report : ComparisonReport) × (compare_files tool left_path right_path
          (Result.ok v)
          (Result.ok v)
        ≡ Result.ok report)
      × (report.changes ≡ [])
      × (report.truncated ≡ false)
      × (report.overall ≡ Status.pass)
      × (report.left ≡ left)
      × (report.right ≡ right)
compare_files_same tool left_path right_path v left right l r = (
  compare_values tool left right v v,
  unfold compare_files in rw (l, r) refl,
  unfold compare_values in ap (λ (d : Diff). d.changes) same,
  unfold compare_values in ap (λ (d : Diff). d.truncated) same,
  unfold compare_values in rw same refl,
  unfold compare_values in refl,
  unfold compare_values in refl,
)
  where
    same :
        diff_values "" v v (record { changes = []; truncated = false })
        ≡ record { changes = []; truncated = false }
    same = diff_values_same "" v _
