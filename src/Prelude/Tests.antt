-- ===== src/Prelude/Tests.antt =====
-- Boolean tests on numbers and options, the conditional, and case lemmas that keep the equation.
use Prim.Native.Nat.{ℕ, ◌<◌, compare, Ordering}
use mathlib.Core.Path.{◌≡◌, refl}
use mathlib.Core.Logic.{◌↔◌, ◌⊎◌, inl, inr}
use mathlib.Core.Bool.{Bool, true, false}
use mathlib.Core.Option.{Option, none, some}
use native.Mathlib.Omega.{arith}

abbrev pub ltb : ℕ → ℕ → Bool
ltb a b = elim (compare a b) [ Ordering.lt ↦ true | _ ↦ false ]

abbrev pub leb : ℕ → ℕ → Bool
leb a b = elim (compare a b) [ Ordering.gt ↦ false | _ ↦ true ]

infix 50 ◌==◌
abbrev pub ◌==◌ : ℕ → ℕ → Bool
a == b = elim (compare a b) [ Ordering.eq ↦ true | _ ↦ false ]

infix 1 if◌then◌else◌
abbrev pub if◌then◌else◌ {ℓ} : {A : Type ℓ} → Bool → A → A → A
if true then x else y = x
if false then x else y = y

pub ltb→lt : (a b : ℕ) → ltb a b ≡ true → a < b
ltb→lt a b h = ground arith

pub ==_iff : (a b : ℕ) → ((a == b) ≡ true) ↔ (a ≡ b)
==_iff a b = ground arith

pub Bool-cases : (b : Bool) → (b ≡ true) ⊎ (b ≡ false)
Bool-cases true = inl refl
Bool-cases false = inr refl

module _ {ℓ} {A : Type ℓ} where
  pub Option-cases : (o : Option A) → (o ≡ none) ⊎ ((a : A) × (o ≡ some a))
  Option-cases none = inl refl
  Option-cases (some a) = inr (a, refl)

  -- `Option::is_some`
  abbrev pub is_some : Option A → Bool
  is_some none = false
  is_some (some a) = true

  -- `Option::or_else` with the alternative already computed
  abbrev pub or_else : Option A → Option A → Option A
  or_else none o = o
  or_else (some a) o = some a

  -- `Option::unwrap_or`
  abbrev pub unwrap_or : A → Option A → A
  unwrap_or d none = d
  unwrap_or d (some a) = a

module _ {ℓ κ} {A : Type ℓ} {B : Type κ} where
  -- `Option::map`
  abbrev pub map_option : (A → B) → Option A → Option B
  map_option f none = none
  map_option f (some a) = some (f a)

  -- `Option::and_then`
  abbrev pub and_then : Option A → (A → Option B) → Option B
  and_then none f = none
  and_then (some a) f = f a

module _ {ℓ} {A : Type ℓ} where
  -- `Option::is_some_and`
  abbrev pub is_some_and : (A → Bool) → Option A → Bool
  is_some_and p none = false
  is_some_and p (some a) = p a
