-- ===== src/Net/Order.antt =====
-- The order of `SocketAddr`, which is derived field by field, and `Iterator::min_by_key` by address.
use netwhy.Prelude.{
  ◌≡◌, ◌↔◌, Bool, true, false, Option, none, some, List, [], ◌∷◌, arith, ltb, ◌==◌, if◌then◌else◌,
}
use netwhy.Net.{SocketAddr, addr_eq}

unfoldable pub addr_lt : SocketAddr → SocketAddr → Bool
addr_lt (SocketAddr.v4 i p) (SocketAddr.v4 j q) = if i == j then ltb p q else ltb i j
addr_lt (SocketAddr.v4 _ _) (SocketAddr.v6 _ _ _ _) = true
addr_lt (SocketAddr.v6 _ _ _ _) (SocketAddr.v4 _ _) = false
addr_lt (SocketAddr.v6 i p f s) (SocketAddr.v6 j q g t) =
    if i == j then (if p == q then (if f == g then ltb s t else ltb f g) else ltb p q) else ltb i j

pub addr_eq_iff : (a b : SocketAddr) → (addr_eq a b ≡ true) ↔ (a ≡ b)
unfolding addr_eq
addr_eq_iff (SocketAddr.v4 i p) (SocketAddr.v4 j q) = ground arith
addr_eq_iff (SocketAddr.v4 i p) (SocketAddr.v6 j q g t) = (λ h. cc, λ h. cc)
addr_eq_iff (SocketAddr.v6 i p f s) (SocketAddr.v4 j q) = (λ h. cc, λ h. cc)
addr_eq_iff (SocketAddr.v6 i p f s) (SocketAddr.v6 j q g t) = ground arith

pub addr_lt_irrefl : (a : SocketAddr) → addr_lt a a ≡ false
unfolding addr_lt
addr_lt_irrefl (SocketAddr.v4 i p) = ground arith
addr_lt_irrefl (SocketAddr.v6 i p f s) = ground arith

pub addr_lt_asymm : (a b : SocketAddr) → addr_lt a b ≡ true → addr_lt b a ≡ false
unfolding addr_lt
addr_lt_asymm (SocketAddr.v4 i p) (SocketAddr.v4 j q) h = ground arith
addr_lt_asymm (SocketAddr.v4 i p) (SocketAddr.v6 j q g t) h = ground arith
addr_lt_asymm (SocketAddr.v6 i p f s) (SocketAddr.v4 j q) h = ground arith
addr_lt_asymm (SocketAddr.v6 i p f s) (SocketAddr.v6 j q g t) h = ground arith

-- The negation of the order is transitive, as the order is total.
pub addr_not_lt_trans :
    (a b c : SocketAddr) → addr_lt b a ≡ false → addr_lt c b ≡ false → addr_lt c a ≡ false
unfolding addr_lt
addr_not_lt_trans (SocketAddr.v4 i p) (SocketAddr.v4 j q) (SocketAddr.v4 k r) h g = ground arith
addr_not_lt_trans (SocketAddr.v6 i p f s) (SocketAddr.v6 j q g t) (SocketAddr.v6 k r l u) h e =
    ground arith
addr_not_lt_trans _ _ _ h g = ground arith

pub addr_lt_total : (a b : SocketAddr) → addr_lt a b ≡ false → addr_lt b a ≡ false → a ≡ b
unfolding addr_lt
addr_lt_total (SocketAddr.v4 i p) (SocketAddr.v4 j q) h g = ground arith
addr_lt_total (SocketAddr.v4 i p) (SocketAddr.v6 j q _ _) h g = ground arith
addr_lt_total (SocketAddr.v6 i p _ _) (SocketAddr.v4 j q) h g = ground arith
addr_lt_total (SocketAddr.v6 i p f s) (SocketAddr.v6 j q g t) h e = ground arith

module _ {ℓ} {A : Type ℓ} (address : A → SocketAddr) where
  -- The earlier of two elements, unless the later one has the lesser address.
  abbrev pub lesser : A → Option A → Option A
  lesser x none = some x
  lesser x (some y) = if addr_lt (address y) (address x) then some y else some x

  -- The first of the elements whose address is least.
  unfoldable pub min_by_address : List A → Option A
  min_by_address [] = none
  min_by_address (x ∷ xs) = lesser x (min_by_address xs)
