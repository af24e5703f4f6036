-- ===== src/Compare.antt =====
-- src/compare.rs: the differences of two reports. Reading a file is not modelled: what it came to is
-- an argument.
pub mod Differences
pub mod Limit
pub mod Files
pub mod Outcome
pub mod Volatile
use netwhy.Prelude.{
  ℕ, zero, suc, Bool, true, false, not, ◌&&◌, ◌||◌, ◌==◌, ltb, leb, String, ◌<>◌, Option, none,
  some, List, [], ◌∷◌, ◌++◌, if◌then◌else◌, str_eq, starts_with, ends_with, decimal, length, keep,
}
use Prim.Native.Char.{code}
use netwhy.Model.{ComparisonChange}
use netwhy.Json.{Value, Items, Members, Number, keys, items, get, as_object, as_array}

abbrev pub max_changes : ℕ
max_changes = 256

-- `==` of two JSON values
abbrev number_eq : Number → Number → Bool
number_eq (Number.unsigned m) (Number.unsigned n) = m == n
number_eq (Number.other m) (Number.other n) = m == n
number_eq _ _ = false

abbrev bool_eq : Bool → Bool → Bool
bool_eq true b = b
bool_eq false b = not b

unfoldable mutual
  pub value_eq : Value → Value → Bool
  value_eq Value.null Value.null = true
  value_eq (Value.bool b) (Value.bool c) = bool_eq b c
  value_eq (Value.number m) (Value.number n) = number_eq m n
  value_eq (Value.string s) (Value.string t) = str_eq s t
  value_eq (Value.array vs) (Value.array ws) = items_eq vs ws
  value_eq (Value.object ms) (Value.object ns) = members_eq ms ns
  value_eq _ _ = false

  pub items_eq : Items → Items → Bool
  items_eq Items.nil Items.nil = true
  items_eq (Items.item v vs) (Items.item w ws) = value_eq v w && items_eq vs ws
  items_eq _ _ = false

  pub members_eq : Members → Members → Bool
  members_eq Members.end Members.end = true
  members_eq (Members.member k v ms) (Members.member l w ns) =
      str_eq k l && value_eq v w && members_eq ms ns
  members_eq _ _ = false

-- What follows the last slash, or all of the text.
abbrev after_last_slash : String → String → String
after_last_slash best String.[] = best
after_last_slash best (String.◌∷◌ c s) = after_last_slash (if code c == 47 then s else best) s

unfoldable pub is_volatile_path : String → Bool
is_volatile_path path =
    let field = after_last_slash path path in
    str_eq path "/generated_at_unix_ms"
    || str_eq path "/tool/version"
    || str_eq field "duration_ms"
    || str_eq field "handshake_ms"

unfoldable pub significance : String → String
significance path =
    if str_eq path "/overall"
      || str_eq path "/exit_code"
      || starts_with path "/diagnosis/code"
      || ends_with path "/status"
      || ends_with path "/error_kind"
    then "high"
    else if starts_with path "/dns"
        || starts_with path "/routes"
        || starts_with path "/tcp"
        || starts_with path "/application_attempts"
        || starts_with path "/path_evidence"
        || starts_with path "/proxy_transport"
        || starts_with path "/plugins"
    then "medium"
    else "low"

-- `str::replace` of one character
abbrev replace_char : ℕ → String → String → String
replace_char c by String.[] = String.[]
replace_char c by (String.◌∷◌ d s) =
    let rest = replace_char c by s in if code d == c then by <> rest else String.◌∷◌ d rest

unfoldable pub escape_pointer : String → String
escape_pointer value = replace_char 47 "~1" (replace_char 126 "~0" value)

-- The variables that `diff_values` changes.
pub record Diff : Type 0 where
  pub changes : List ComparisonChange
  pub truncated : Bool

abbrev pub is_full : Diff → Bool
is_full s = leb max_changes (length s.changes)

abbrev pub change_at : String → Value → Value → ComparisonChange
change_at path left right = record {
  path = if str_eq path "" then "/" else path;
  significance = significance path;
  left = left;
  right = right;
}

unfoldable pub push_change : String → Value → Value → Diff → Diff
unfolding is_volatile_path significance
push_change path left right s =
    if is_volatile_path path
    then s
    else if is_full s
    then record s { truncated = true }
    else record s { changes = s.changes ++ change_at path left right ∷ [] }

-- `<` of two texts
abbrev text_lt : String → String → Bool
text_lt s String.[] = false
text_lt String.[] (String.◌∷◌ d t) = true
text_lt (String.◌∷◌ c s) (String.◌∷◌ d t) =
    ltb (code c) (code d) || (code c == code d && text_lt s t)

-- `sort_unstable`, and `dedup` as it goes: a text that is there is not put in again
abbrev insert_key : String → List String → List String
insert_key k [] = k ∷ []
insert_key k (l ∷ ls) =
    let later = insert_key k ls in
    if text_lt k l then k ∷ l ∷ ls else if str_eq k l then l ∷ ls else l ∷ later

abbrev sort_keys : List String → List String
sort_keys [] = []
sort_keys (k ∷ ks) = insert_key k (sort_keys ks)

abbrev pub keys_of_both : Members → Members → List String
keys_of_both ms ns = sort_keys (keys ms ++ keys ns)

abbrev pub child_key : String → String → String
child_key path key = path <> ("/" <> escape_pointer key)

abbrev pub child_index : String → ℕ → String
child_index path index = path <> ("/" <> decimal index)

-- The guards of `diff_values` in front of what it does with two values.
abbrev pub guarded : String → Value → Value → Diff → Diff → Diff
guarded path left right s later =
    if is_volatile_path path || value_eq left right
    then s
    else if is_full s
    then record s { truncated = true }
    else later

-- The iterations over the keys, from what one iteration does.
abbrev pub over_keys : (String → Diff → Diff) → List String → Diff → Diff
over_keys step [] s = s
over_keys step (k ∷ ks) s = over_keys step ks (step k s)

unfoldable mutual
  unfolding push_change value_eq is_volatile_path escape_pointer get decimal

  pub diff_values : String → Value → Value → Diff → Diff
  diff_values path (Value.object ms) right s =
      guarded path (Value.object ms) right s (elim (as_object right) [
        | some ns ↦
            over_keys (λ key. diff_key ms key (child_key path key) (get key ns))
              (keys_of_both ms ns) s
        | none ↦ push_change path (Value.object ms) right s
      ])
  diff_values path (Value.array vs) right s =
      guarded path (Value.array vs) right s (elim (as_array right) [
        | some ws ↦ diff_items path 0 vs (items ws) s
        | none ↦ push_change path (Value.array vs) right s
      ])
  diff_values path Value.null right s =
      guarded path Value.null right s (push_change path Value.null right s)
  diff_values path (Value.bool b) right s =
      guarded path (Value.bool b) right s (push_change path (Value.bool b) right s)
  diff_values path (Value.number n) right s =
      guarded path (Value.number n) right s (push_change path (Value.number n) right s)
  diff_values path (Value.string t) right s =
      guarded path (Value.string t) right s (push_change path (Value.string t) right s)

  -- An iteration over the keys: the value under the key on the left, and the one on the right.
  pub diff_key : Members → String → String → Option Value → Diff → Diff
  diff_key Members.end key path none s = push_change path Value.null Value.null s
  diff_key Members.end key path (some right) s = push_change path Value.null right s
  diff_key (Members.member k v ms) key path none s =
      let later = diff_key ms key path none s in
      if str_eq key k then push_change path v Value.null s else later
  diff_key (Members.member k v ms) key path (some w) s =
      let here = diff_values path v w s in
      let later = diff_key ms key path (some w) s in if str_eq key k then here else later

  -- The iterations over the indices, from one on.
  pub diff_items : String → ℕ → Items → List Value → Diff → Diff
  diff_items path index Items.nil [] s = s
  diff_items path index Items.nil (w ∷ ws) s =
      diff_items path (suc index) Items.nil ws (push_change (child_index path index) Value.null w s)
  diff_items path index (Items.item v vs) [] s =
      diff_items path (suc index) vs [] (push_change (child_index path index) v Value.null s)
  diff_items path index (Items.item v vs) (w ∷ ws) s =
      diff_items path (suc index) vs ws (diff_values (child_index path index) v w s)
