-- ===== src/Prelude/Bytes.antt =====
-- Texts as the bytes of their UTF-8.
use Prim.Native.Nat.{ℕ, zero, suc, ◌+◌, ◌*◌, ◌/◌, ◌%◌, ◌^◌, ◌<◌}
use mathlib.Core.Path.{◌≡◌, refl, ◌∙◌}
use Prim.Native.Char.{Char, char, code, IsScalar}
use Prim.Native.String.{String}
use mathlib.Core.List.{List, [], ◌∷◌, ◌++◌}
use mathlib.Core.Logic.{inl, inr}
use netwhy.Prelude.Lists.{All, length, length-append}
use native.Mathlib.Omega.{arith}
use netwhy.Prelude.Tests.{Bool-cases, ltb→lt, ltb, if◌then◌else◌}

-- `as_bytes` of a character: its UTF-8
abbrev pub utf8 : ℕ → List ℕ
utf8 c =
    if ltb c 128
    then c ∷ []
    else if ltb c 2048
    then (192 + c / 64) ∷ (128 + c % 64) ∷ []
    else if ltb c 65536
    then (224 + c / 4096) ∷ (128 + c / 64 % 64) ∷ (128 + c % 64) ∷ []
    else (240 + c / 262144) ∷ (128 + c / 4096 % 64) ∷ (128 + c / 64 % 64) ∷ (128 + c % 64) ∷ []

-- `as_bytes`
abbrev pub bytes : String → List ℕ
bytes String.[] = []
bytes (String.◌∷◌ c s) = utf8 (code c) ++ bytes s

scalar_bound : (n : ℕ) → IsScalar n → n < 1114112
scalar_bound n h = ground arith

-- Each element is a byte.
abbrev pub AreBytes : List ℕ → Type 0
AreBytes bs = All (λ b. b < 256) bs

AreBytes-utf8 : (c : ℕ) → c < 1114112 → AreBytes (utf8 c)
AreBytes-utf8 c h = elim (Bool-cases (ltb c 128)) [
  | inl e ↦ rw e (omega (arith, ltb→lt c 128 e), tt)
  | inr e ↦ elim (Bool-cases (ltb c 2048)) [
    | inl f ↦ rw (e, f) (omega (arith, ltb→lt c 2048 f), (omega arith, tt))
    | inr f ↦ elim (Bool-cases (ltb c 65536)) [
      | inl g ↦ rw (e, f, g) (omega (arith, ltb→lt c 65536 g), (omega arith, (omega arith, tt)))
      | inr g ↦ rw (e, f, g) (omega arith, (omega arith, (omega arith, (omega arith, tt))))
    ]
  ]
]

pub AreBytes-append : (xs ys : List ℕ) → AreBytes xs → AreBytes ys → AreBytes (xs ++ ys)
AreBytes-append [] ys h k = k
AreBytes-append (x ∷ xs) ys h k = (h.0, AreBytes-append xs ys h.1 k)

pub AreBytes-bytes : (s : String) → AreBytes (bytes s)
AreBytes-bytes String.[] = tt
AreBytes-bytes (String.◌∷◌ c s) =
    AreBytes-append (utf8 (code c)) (bytes s) (AreBytes-utf8 (code c) (code_bound c))
      (AreBytes-bytes s)
  where
    code_bound : (c : Char) → code c < 1114112
    code_bound (char n h) = scalar_bound n h

-- `to_be_bytes` and `octets`: a number as bytes, the most significant first
abbrev pub be_bytes : ℕ → ℕ → List ℕ
be_bytes zero n = []
be_bytes (suc k) n = be_bytes k (n / 256) ++ n % 256 ∷ []

-- The number that such bytes are, after those that make up `n`.
abbrev pub be_value : ℕ → List ℕ → ℕ
be_value n [] = n
be_value n (b ∷ bs) = be_value (n * 256 + b) bs

be_value-append : (n b : ℕ) (bs : List ℕ) → be_value n (bs ++ b ∷ []) ≡ be_value n bs * 256 + b
be_value-append n b [] = refl
be_value-append n b (x ∷ bs) = be_value-append (n * 256 + x) b bs

pub be_value-be_bytes : (k n : ℕ) → n < 256 ^ k → be_value 0 (be_bytes k n) ≡ n
be_value-be_bytes zero n h = omega arith
be_value-be_bytes (suc k) n h =
    be_value-append 0 (n % 256) (be_bytes k (n / 256))
    ∙ rw (be_value-be_bytes k (n / 256) (omega arith)) (omega arith)

pub length-be_bytes : (k n : ℕ) → length (be_bytes k n) ≡ k
length-be_bytes zero n = refl
length-be_bytes (suc k) n =
    length-append (be_bytes k (n / 256)) (n % 256 ∷ [])
    ∙ rw (length-be_bytes k (n / 256)) (omega arith)

pub AreBytes-be_bytes : (k n : ℕ) → AreBytes (be_bytes k n)
AreBytes-be_bytes zero n = tt
AreBytes-be_bytes (suc k) n =
    AreBytes-append (be_bytes k (n / 256)) _ (AreBytes-be_bytes k (n / 256)) (omega arith, tt)
