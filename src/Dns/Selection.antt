-- ===== src/Dns/Selection.antt =====
-- What the loop of `resolved_result` of src/probe/dns.rs selects: the first 32 distinct addresses of
-- the family that was asked for.
use mathlib.Core.List.{append_assoc, append-nil}
use netwhy.Prelude.{
  ℕ, zero, suc, ◌≤◌, ◌≡◌, refl, ap, sym, ◌∙◌, Bool, true, false, not, ◌&&◌, ◌||◌, ◌==◌, ltb, List,
  [], ◌∷◌, ◌++◌, arith, keep, take, length, length-append, Bool-cases, inl, inr,
}
use netwhy.Net.{SocketAddr, addr_eq}
use netwhy.Net.Order.{addr_eq_iff}
use netwhy.Dns.{max_addresses, Collected, has_seen, is_excluded, collect}

-- Each address of the list once, where it first stands.
unfoldable pub firsts : List SocketAddr → List SocketAddr
firsts [] = []
firsts (a ∷ xs) = a ∷ keep (λ b. not (addr_eq b a)) (firsts xs)

-- The distinct addresses of the family that was asked for.
unfoldable pub wanted : Bool → Bool → List SocketAddr → List SocketAddr
unfolding firsts
wanted ipv4_only ipv6_only xs = firsts (keep (λ a. not (is_excluded ipv4_only ipv6_only a)) xs)

module _ {ℓ} {A : Type ℓ} where
  keep-keep : (p q : A → Bool) (xs : List A) → keep p (keep q xs) ≡ keep (λ x. q x && p x) xs
  keep-keep p q [] = refl
  keep-keep p q (x ∷ xs) = ground (arith, keep-keep p q xs)

  keep_congr : (p q : A → Bool) → ((x : A) → p x ≡ q x) → (xs : List A) → keep p xs ≡ keep q xs
  keep_congr p q h [] = refl
  keep_congr p q h (x ∷ xs) = ground (arith, h x, keep_congr p q h xs)

  pub keep-true : (p : A → Bool) → ((x : A) → p x ≡ true) → (xs : List A) → keep p xs ≡ xs
  keep-true p h [] = refl
  keep-true p h (x ∷ xs) = ground (arith, h x, keep-true p h xs)

-- The addresses of a list that have not been seen.
abbrev fresh : List SocketAddr → List SocketAddr → List SocketAddr
fresh seen xs = keep (λ a. not (has_seen a seen)) xs

fresh-keep_seen :
    (seen xs : List SocketAddr) (a : SocketAddr)
    → has_seen a seen ≡ true
    → fresh seen (keep (λ b. not (addr_eq b a)) xs) ≡ fresh seen xs
fresh-keep_seen seen xs a h =
    keep-keep (λ b. not (has_seen b seen)) (λ b. not (addr_eq b a)) xs
    ∙ keep_congr (λ b. not (addr_eq b a) && not (has_seen b seen)) (λ b. not (has_seen b seen))
        (λ b. elim (Bool-cases (addr_eq b a)) [
          | inl e ↦
              let same : has_seen b seen ≡ true = rw ((addr_eq_iff b a).0 e) h in rw (e, same) refl
          | inr e ↦ rw e refl
        ])
        xs

fresh-keep_new :
    (seen xs : List SocketAddr) (a : SocketAddr)
    → fresh seen (keep (λ b. not (addr_eq b a)) xs) ≡ fresh (a ∷ seen) xs
fresh-keep_new seen xs a =
    keep-keep (λ b. not (has_seen b seen)) (λ b. not (addr_eq b a)) xs
    ∙ keep_congr (λ b. not (addr_eq b a) && not (has_seen b seen))
        (λ b. not (has_seen b (a ∷ seen))) (λ b. ground arith) xs

take_all : (n : ℕ) (xs ys : List SocketAddr) → length xs ≡ n → take n (xs ++ ys) ≡ xs
take_all zero [] ys h = refl
take_all zero (x ∷ xs) ys h = absurd (omega arith)
take_all (suc n) [] ys h = absurd (omega arith)
take_all (suc n) (x ∷ xs) ys h = ap (λ zs. x ∷ zs) (take_all n xs ys (omega arith))

take_short : (n : ℕ) (xs : List SocketAddr) → length xs ≤ n → take n xs ≡ xs
take_short zero [] h = refl
take_short zero (x ∷ xs) h = absurd (omega arith)
take_short (suc n) [] h = refl
take_short (suc n) (x ∷ xs) h = ap (λ zs. x ∷ zs) (take_short n xs (omega arith))

module _ (ipv4_only ipv6_only : Bool) where
  abbrev new_of : List SocketAddr → Collected → List SocketAddr
  new_of xs s = fresh s.seen (wanted ipv4_only ipv6_only xs)

  new_excluded :
      (a : SocketAddr) (xs : List SocketAddr) (s : Collected)
      → is_excluded ipv4_only ipv6_only a ≡ true
      → new_of (a ∷ xs) s ≡ new_of xs s
  unfolding wanted
  new_excluded a xs s e = rw e refl

  new_seen :
      (a : SocketAddr) (xs : List SocketAddr) (s : Collected)
      → is_excluded ipv4_only ipv6_only a ≡ false
      → has_seen a s.seen ≡ true
      → new_of (a ∷ xs) s ≡ new_of xs s
  unfolding wanted
  new_seen a xs s e h = rw (e, h) (fresh-keep_seen s.seen _ a h)

  new_fresh :
      (a : SocketAddr) (xs : List SocketAddr) (s : Collected)
      → is_excluded ipv4_only ipv6_only a ≡ false
      → has_seen a s.seen ≡ false
      → new_of (a ∷ xs) s ≡ a ∷ fresh (a ∷ s.seen) (wanted ipv4_only ipv6_only xs)
  unfolding wanted
  new_fresh a xs s e h = rw (e, h) (ap (λ zs. a ∷ zs) (fresh-keep_new s.seen _ a))

  module _ (a : SocketAddr) (xs : List SocketAddr) (s : Collected) where
    collect_skip :
        (is_excluded ipv4_only ipv6_only a || has_seen a s.seen) ≡ true
        → collect ipv4_only ipv6_only (a ∷ xs) s ≡ collect ipv4_only ipv6_only xs s
    unfolding collect
    collect_skip e = rw e refl

    collect_full :
        (is_excluded ipv4_only ipv6_only a || has_seen a s.seen) ≡ false
        → (length s.addresses == max_addresses) ≡ true
        → collect ipv4_only ipv6_only (a ∷ xs) s ≡ record s { seen = a ∷ s.seen; truncated = true }
    unfolding collect
    collect_full e f = rw (e, f) refl

    collect_push :
        (is_excluded ipv4_only ipv6_only a || has_seen a s.seen) ≡ false
        → (length s.addresses == max_addresses) ≡ false
        → collect ipv4_only ipv6_only (a ∷ xs) s
          ≡ collect ipv4_only ipv6_only xs
              (record s { seen = a ∷ s.seen; addresses = s.addresses ++ a ∷ [] })
    unfolding collect
    collect_push e f = rw (e, f) refl

  -- The first of the addresses were taken, as far as there is room.
  abbrev pub Takes : List SocketAddr → Bool → Collected → Type 0
  Takes all truncated out =
      (out.addresses ≡ take max_addresses all)
      × (out.truncated ≡ (truncated || ltb max_addresses (length all)))

  Takes-short :
      (s : Collected) → length s.addresses ≤ max_addresses → Takes s.addresses s.truncated s
  Takes-short s h = (sym (take_short max_addresses s.addresses h), ground arith)

  Takes-full :
      (a : SocketAddr) (later : List SocketAddr) (s : Collected)
      → (length s.addresses == max_addresses) ≡ true
      → Takes
          (s.addresses ++ a ∷ later)
          s.truncated
          (record s { seen = a ∷ s.seen; truncated = true })
  Takes-full a later s h = (
    sym (take_all max_addresses s.addresses (a ∷ later) (ground arith)),
    ground (arith, length-append s.addresses (a ∷ later)),
  )

  pub collect_lem :
      (xs : List SocketAddr) (s : Collected)
      → length s.addresses ≤ max_addresses
      → Takes (s.addresses ++ new_of xs s) s.truncated (collect ipv4_only ipv6_only xs s)
  collect_lem [] s h = unfold collect wanted in rw append-nil (Takes-short s h)
  collect_lem (a ∷ xs) s h = elim (Bool-cases (is_excluded ipv4_only ipv6_only a)) [
    | inl e ↦ rw (new_excluded a xs s e, collect_skip a xs s (rw e)) (collect_lem xs s h)
    | inr e ↦ elim (Bool-cases (has_seen a s.seen)) [
      | inl f ↦ rw (new_seen a xs s e f, collect_skip a xs s (rw (e, f))) (collect_lem xs s h)
      | inr f ↦ elim (Bool-cases (length s.addresses == max_addresses)) [
        | inl g ↦ rw (new_fresh a xs s e f, collect_full a xs s (rw (e, f)) g) (Takes-full a _ s g)
        | inr g ↦
            rw (new_fresh a xs s e f, collect_push a xs s (rw (e, f)) g)
              (rw (append_assoc s.addresses (a ∷ [])) at (
                collect_lem xs (record s { seen = a ∷ s.seen; addresses = s.addresses ++ a ∷ [] })
                  (ground (arith, length-append s.addresses (a ∷ [])))))
      ]
    ]
  ]
