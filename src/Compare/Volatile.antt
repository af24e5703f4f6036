-- ===== src/Compare/Volatile.antt =====
-- No change that src/compare.rs reports is at a volatile path.
use netwhy.Prelude.{
  ℕ, zero, suc, ◌≡◌, refl, false, ◌||◌, String, Option, none, some, List, [], ◌∷◌, ◌++◌, take,
  str_eq, All, Bool-cases, Option-cases, inl, inr,
}
use netwhy.Model.{ComparisonChange, ComparisonInput, ToolInfo}
use netwhy.Json.{Value, Items, Members, items, get, as_object, as_array}
use netwhy.Compare.{max_changes, is_volatile_path, value_eq, keys_of_both, child_key, child_index}
use netwhy.Compare.Differences.{
  one_change, unless_equal, of_keys, differences, differences_at, differences_from,
}
use netwhy.Compare.Files.{compare_values}
use netwhy.Compare.Outcome.{compare_values-differences}

abbrev pub Lasting : List ComparisonChange → Type 0
Lasting cs = All (λ (c : ComparisonChange). is_volatile_path c.path ≡ false) cs

Lasting-append : (cs ds : List ComparisonChange) → Lasting cs → Lasting ds → Lasting (cs ++ ds)
Lasting-append [] ds h k = k
Lasting-append (c ∷ cs) ds h k = (h.0, Lasting-append cs ds h.1 k)

Lasting-take : (n : ℕ) (cs : List ComparisonChange) → Lasting cs → Lasting (take n cs)
Lasting-take zero cs h = tt
Lasting-take (suc n) [] h = tt
Lasting-take (suc n) (c ∷ cs) h = (h.0, Lasting-take n cs h.1)

lasting_root : is_volatile_path "/" ≡ false
unfolding is_volatile_path
lasting_root = refl

Lasting-one_change : (path : String) (left right : Value) → Lasting (one_change path left right)
Lasting-one_change path left right = elim (Bool-cases (is_volatile_path path)) [
  | inl e ↦ rw e tt
  | inr e ↦ rw e (elim (Bool-cases (str_eq path "")) [
    | inl f ↦ rw f (lasting_root, tt)
    | inr f ↦ rw f (e, tt)
  ])
]

Lasting-unless_equal :
    (path : String) (left right : Value) (cs : List ComparisonChange)
    → Lasting cs
    → Lasting (unless_equal path left right cs)
Lasting-unless_equal path left right cs h =
    elim (Bool-cases (is_volatile_path path || value_eq left right)) [
      | inl e ↦ rw e tt
      | inr e ↦ rw e h
    ]

Lasting-of_keys :
    (at : String → List ComparisonChange)
    → ((k : String) → Lasting (at k))
    → (ks : List String) → Lasting (of_keys at ks)
Lasting-of_keys at h [] = tt
Lasting-of_keys at h (k ∷ ks) =
    Lasting-append (at k) (of_keys at ks) (h k) (Lasting-of_keys at h ks)

mutual
  unfolding differences

  Lasting-differences : (path : String) (left right : Value) → Lasting (differences path left right)
  Lasting-differences path (Value.object ms) right =
      Lasting-unless_equal path (Value.object ms) right _ (elim (Option-cases (as_object right)) [
        | inl e ↦ rw e (Lasting-one_change path (Value.object ms) right)
        | inr (ns, e) ↦ rw e (
            Lasting-of_keys _
              (λ key. Lasting-differences_at ms key (child_key path key) (get key ns))
              (keys_of_both ms ns))
      ])
  Lasting-differences path (Value.array vs) right =
      Lasting-unless_equal path (Value.array vs) right _ (elim (Option-cases (as_array right)) [
        | inl e ↦ rw e (Lasting-one_change path (Value.array vs) right)
        | inr (ws, e) ↦ rw e (Lasting-differences_from path 0 vs (items ws))
      ])
  Lasting-differences path Value.null right =
      Lasting-unless_equal path Value.null right _ (Lasting-one_change path Value.null right)
  Lasting-differences path (Value.bool b) right =
      Lasting-unless_equal path (Value.bool b) right _
        (Lasting-one_change path (Value.bool b) right)
  Lasting-differences path (Value.number n) right =
      Lasting-unless_equal path (Value.number n) right _
        (Lasting-one_change path (Value.number n) right)
  Lasting-differences path (Value.string t) right =
      Lasting-unless_equal path (Value.string t) right _
        (Lasting-one_change path (Value.string t) right)

  Lasting-differences_at :
      (ms : Members) (key path : String) (right : Option Value)
      → Lasting (differences_at ms key path right)
  Lasting-differences_at Members.end key path none = Lasting-one_change path Value.null Value.null
  Lasting-differences_at Members.end key path (some w) = Lasting-one_change path Value.null w
  Lasting-differences_at (Members.member k v ms) key path none = elim (Bool-cases (str_eq key k)) [
    | inl e ↦ rw e (Lasting-one_change path v Value.null)
    | inr e ↦ rw e (Lasting-differences_at ms key path none)
  ]
  Lasting-differences_at (Members.member k v ms) key path (some w) =
      elim (Bool-cases (str_eq key k)) [
        | inl e ↦ rw e (Lasting-differences path v w)
        | inr e ↦ rw e (Lasting-differences_at ms key path (some w))
      ]

  Lasting-differences_from :
      (path : String) (index : ℕ) (vs : Items) (ws : List Value)
      → Lasting (differences_from path index vs ws)
  Lasting-differences_from path index Items.nil [] = tt
  Lasting-differences_from path index Items.nil (w ∷ ws) =
      Lasting-append _ _ (Lasting-one_change (child_index path index) Value.null w)
        (Lasting-differences_from path (suc index) Items.nil ws)
  Lasting-differences_from path index (Items.item v vs) [] =
      Lasting-append _ _ (Lasting-one_change (child_index path index) v Value.null)
        (Lasting-differences_from path (suc index) vs [])
  Lasting-differences_from path index (Items.item v vs) (w ∷ ws) =
      Lasting-append _ _ (Lasting-differences (child_index path index) v w)
        (Lasting-differences_from path (suc index) vs ws)

-- No change of a comparison is at a volatile path: not at the time of generation, the version of the
-- tool, nor at a duration of a stage or a handshake.
pub compare_values-Lasting :
    (tool : ToolInfo) (left_input right_input : ComparisonInput) (left right : Value)
    → Lasting (compare_values tool left_input right_input left right).changes
compare_values-Lasting tool left_input right_input left right =
    rw ((compare_values-differences tool left_input right_input left right).0)
      (Lasting-take max_changes _ (Lasting-differences "" left right))
