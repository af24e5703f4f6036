-- ===== src/Route/Bounded.antt =====
-- `read_bounded` of src/probe/route.rs: how much of the output of a tool is kept.
use mathlib.Core.Path.{subst}
use Prim.Native.Nat.{min}
use netwhy.Prelude.{
  ℕ, zero, suc, ◌+◌, ◌-◌, ◌≡◌, refl, ap, sym, ◌∙◌, Bool, false, ◌||◌, ltb, List, [], ◌∷◌, ◌++◌,
  length, take, length-append, arith, Bool-cases, inl, inr,
}
use netwhy.Route.{CapturedStream, capture, capture_all, read_bounded, max_route_output_bytes}

-- All that the tool printed
abbrev pub concat : List (List ℕ) → List ℕ
concat [] = []
concat (chunk ∷ chunks) = chunk ++ concat chunks

take_zero : (n : ℕ) (ys : List ℕ) → n ≡ 0 → take n ys ≡ []
take_zero zero ys h = refl
take_zero (suc n) ys h = absurd (omega arith)

append_nil : (xs : List ℕ) → xs ++ [] ≡ xs
append_nil [] = refl
append_nil (x ∷ xs) = ap (λ t. x ∷ t) (append_nil xs)

minus_zero : (n : ℕ) → suc n ≡ suc n - 0
minus_zero n = omega arith

take-append_rest :
    (n : ℕ) (xs ys : List ℕ) → take n (xs ++ ys) ≡ take n xs ++ take (n - length xs) ys
take-append_rest zero xs ys = sym (take_zero (0 - length xs) ys (omega arith))
take-append_rest (suc n) [] ys = ap (λ k. take k ys) (minus_zero n)
take-append_rest (suc n) (x ∷ xs) ys =
    ap (λ t. x ∷ t) (take-append_rest n xs ys ∙ ap (λ k. take n xs ++ take k ys) (omega arith))

append_assoc : (xs ys zs : List ℕ) → (xs ++ ys) ++ zs ≡ xs ++ (ys ++ zs)
append_assoc [] ys zs = refl
append_assoc (x ∷ xs) ys zs = ap (λ t. x ∷ t) (append_assoc xs ys zs)

length-take_eq : (n : ℕ) (xs : List ℕ) → length (take n xs) ≡ min n (length xs)
length-take_eq zero xs = omega arith
length-take_eq (suc n) [] = omega arith
length-take_eq (suc n) (x ∷ xs) = omega (arith, length-take_eq n xs)

-- What was captured of the bytes so far
record IsCaptured (c : CapturedStream) (bs : List ℕ) : Type 0 where
  kept : c.bytes ≡ take max_route_output_bytes bs
  cut : c.truncated ≡ ltb max_route_output_bytes (length bs)

kept_more :
    (n : ℕ) (b bs chunk : List ℕ)
    → b ≡ take n bs
    → b ++ take (n - length b) chunk ≡ take n (bs ++ chunk)
kept_more n b bs chunk h =
    let room : n - length b ≡ n - length bs =
      omega (arith, ap (length {A = ℕ}) h, length-take_eq n bs) in
    rw (room, h) (sym (take-append_rest n bs chunk))

over :
    (n kept read more : ℕ)
    → kept ≡ min n read
    → (ltb n read || ltb (n - kept) more) ≡ ltb n (read + more)
over n kept read more h = elim (Bool-cases (ltb n read)) [
  | inl e ↦ ground arith
  | inr e ↦ ground arith
]

cut_more :
    (n : ℕ) (b bs chunk : List ℕ) (t : Bool)
    → b ≡ take n bs
    → t ≡ ltb n (length bs)
    → (t || ltb (n - length b) (length chunk)) ≡ ltb n (length (bs ++ chunk))
cut_more n b bs chunk t h k =
    rw (k, length-append bs chunk)
      (over n (length b) (length bs) (length chunk) (ap (length {A = ℕ}) h ∙ length-take_eq n bs))

IsCaptured-capture :
    (c : CapturedStream) (bs chunk : List ℕ)
    → IsCaptured c bs
    → IsCaptured (capture c chunk) (bs ++ chunk)
IsCaptured-capture c bs chunk h = record {
  kept = kept_more max_route_output_bytes c.bytes bs chunk h.kept;
  cut = cut_more max_route_output_bytes c.bytes bs chunk c.truncated h.kept h.cut;
}

IsCaptured-capture_all :
    (c : CapturedStream) (bs : List ℕ) (chunks : List (List ℕ))
    → IsCaptured c bs
    → IsCaptured (capture_all c chunks) (bs ++ concat chunks)
IsCaptured-capture_all c bs [] h = subst (IsCaptured c) (sym (append_nil bs)) h
IsCaptured-capture_all c bs (chunk ∷ chunks) h =
    subst (IsCaptured (capture_all (capture c chunk) chunks))
      (append_assoc bs chunk (concat chunks))
      (IsCaptured-capture_all (capture c chunk) (bs ++ chunk) chunks
        (IsCaptured-capture c bs chunk h))

-- However the output of a tool comes in, its first 65536 bytes are kept, and it is known whether there were
-- more.
pub read_bounded-take :
    (chunks : List (List ℕ))
    → ((read_bounded chunks).bytes ≡ take max_route_output_bytes (concat chunks))
      × ((read_bounded chunks).truncated ≡ ltb max_route_output_bytes (length (concat chunks)))
unfolding read_bounded
read_bounded-take chunks =
    let all =
      IsCaptured-capture_all (record { bytes = []; truncated = false }) [] chunks
        (record { kept = refl; cut = refl }) in
    (all.kept, all.cut)
