-- ===== src/Compare/Differences.antt =====
-- All the differences of two values, without the limit of src/compare.rs.
use netwhy.Prelude.{
  ℕ, suc, ◌||◌, String, Option, none, some, List, [], ◌∷◌, ◌++◌, if◌then◌else◌, str_eq, decimal,
}
use netwhy.Model.{ComparisonChange}
use netwhy.Json.{Value, Items, Members, items, get, as_object, as_array}
use netwhy.Compare.{
  value_eq, is_volatile_path, significance, escape_pointer, change_at, keys_of_both, child_key,
  child_index,
}

-- The difference at a path, unless its field is volatile.
abbrev pub one_change : String → Value → Value → List ComparisonChange
one_change path left right = if is_volatile_path path then [] else change_at path left right ∷ []

-- There are none at a volatile path and none between equal values.
abbrev pub unless_equal : String → Value → Value → List ComparisonChange → List ComparisonChange
unless_equal path left right inside =
    if is_volatile_path path || value_eq left right then [] else inside

abbrev pub of_keys : (String → List ComparisonChange) → List String → List ComparisonChange
of_keys at [] = []
of_keys at (k ∷ ks) = at k ++ of_keys at ks

unfoldable mutual
  unfolding value_eq is_volatile_path significance escape_pointer get decimal

  pub differences : String → Value → Value → List ComparisonChange
  differences path (Value.object ms) right =
      unless_equal path (Value.object ms) right (elim (as_object right) [
        | some ns ↦
            of_keys (λ key. differences_at ms key (child_key path key) (get key ns))
              (keys_of_both ms ns)
        | none ↦ one_change path (Value.object ms) right
      ])
  differences path (Value.array vs) right =
      unless_equal path (Value.array vs) right (elim (as_array right) [
        | some ws ↦ differences_from path 0 vs (items ws)
        | none ↦ one_change path (Value.array vs) right
      ])
  differences path Value.null right =
      unless_equal path Value.null right (one_change path Value.null right)
  differences path (Value.bool b) right =
      unless_equal path (Value.bool b) right (one_change path (Value.bool b) right)
  differences path (Value.number n) right =
      unless_equal path (Value.number n) right (one_change path (Value.number n) right)
  differences path (Value.string t) right =
      unless_equal path (Value.string t) right (one_change path (Value.string t) right)

  pub differences_at : Members → String → String → Option Value → List ComparisonChange
  differences_at Members.end key path none = one_change path Value.null Value.null
  differences_at Members.end key path (some right) = one_change path Value.null right
  differences_at (Members.member k v ms) key path none =
      let later = differences_at ms key path none in
      if str_eq key k then one_change path v Value.null else later
  differences_at (Members.member k v ms) key path (some w) =
      let here = differences path v w in
      let later = differences_at ms key path (some w) in if str_eq key k then here else later

  pub differences_from : String → ℕ → Items → List Value → List ComparisonChange
  differences_from path index Items.nil [] = []
  differences_from path index Items.nil (w ∷ ws) =
      one_change (child_index path index) Value.null w
      ++ differences_from path (suc index) Items.nil ws
  differences_from path index (Items.item v vs) [] =
      one_change (child_index path index) v Value.null ++ differences_from path (suc index) vs []
  differences_from path index (Items.item v vs) (w ∷ ws) =
      differences (child_index path index) v w ++ differences_from path (suc index) vs ws
