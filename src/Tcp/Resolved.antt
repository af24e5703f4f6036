-- ===== src/Tcp/Resolved.antt =====
-- The connections of src/probe/tcp.rs to the addresses that src/probe/dns.rs resolved, as src/lib.rs
-- chains them.
use netwhy.Prelude.{
  ℕ, suc, ◌≤◌, ◌≡◌, refl, ap, Bool, Option, none, some, List, [], ◌∷◌, map, map_option, arith,
  length, All, unwrap_or, length-map,
}
use mathlib.Core.Path.{ap₂}
use netwhy.Net.{SocketAddr, IpAddr}
use netwhy.Net.Least.{AreDistinct}
use netwhy.Model.{TcpResult, DnsResult}
use netwhy.Dns.{Lookup, resolve, max_addresses}
use netwhy.Dns.Result.{Keeps, resolve-Keeps}
use netwhy.Tcp.{Task, Pool, Connection, connect_with, connect_all, enumerate, failed_task}
use netwhy.Tcp.Order.{connect_all_with_lem}

module _ {ℓ} {A : Type ℓ} (address : A → SocketAddr) where
  All-of_map {κ} :
      (P : SocketAddr → Type κ) (xs : List A) → All P (map address xs) → All (λ x. P (address x)) xs
  All-of_map P [] h = tt
  All-of_map P (x ∷ xs) h = (h.0, All-of_map P xs h.1)

  AreDistinct-of_map :
      (xs : List A) → AreDistinct (λ a. a) (map address xs) → AreDistinct address xs
  AreDistinct-of_map [] h = tt
  AreDistinct-of_map (x ∷ xs) h = (All-of_map _ xs h.0, AreDistinct-of_map xs h.1)

address-connect_with :
    (elapsed : ℕ) (a : SocketAddr) (timeout_ms : ℕ) (c : Connection)
    → (connect_with elapsed a timeout_ms c).address ≡ a
address-connect_with elapsed a timeout_ms Connection.opened = refl
address-connect_with elapsed a timeout_ms (Connection.refused kind error) = refl
address-connect_with elapsed a timeout_ms Connection.expired = refl

module _ (elapsed : Task → ℕ) (timeout_ms : ℕ) (connections : Task → Option Connection) where
  abbrev result : Task → TcpResult
  result t =
      unwrap_or (failed_task t.address)
        (map_option (connect_with (elapsed t) t.address timeout_ms) (connections t))

  address_of :
      (t : Task) (o : Option Connection)
      → (unwrap_or
          (failed_task t.address)
          (map_option (connect_with (elapsed t) t.address timeout_ms) o)).address
        ≡ t.address
  address_of t none = refl
  address_of t (some c) = address-connect_with (elapsed t) t.address timeout_ms c

  addresses_of :
      (o : ℕ) (xs : List SocketAddr)
      → map (λ (r : TcpResult). r.address) (map result (enumerate o xs)) ≡ xs
  addresses_of o [] = refl
  addresses_of o (x ∷ xs) =
      let t : Task = record { index = o; address = x } in
      ap₂ (λ y ys. y ∷ ys) (address_of t (connections t)) (addresses_of (suc o) xs)

  -- Whatever the resolver answers and however the connections end, the probes end with one result for
  -- each resolved address, in their order: at most 32 of them, and no two for one address.
  pub connect_all-resolve :
      (choose : Pool → ℕ) (ipv4_only ipv6_only : Bool) (resolve_elapsed : ℕ)
      → (literal : Option SocketAddr) (host : Option IpAddr) (port : ℕ) (lookup : Lookup)
      → let dns = resolve resolve_elapsed literal host port lookup ipv4_only ipv6_only timeout_ms in
        (results : List TcpResult) × (connect_all elapsed timeout_ms connections choose
            dns.addresses
          ≡ some results)
        × (map (λ (r : TcpResult). r.address) results ≡ dns.addresses)
        × AreDistinct (λ (r : TcpResult). r.address) results
        × (length results ≤ max_addresses)
  connect_all-resolve choose ipv4_only ipv6_only resolve_elapsed literal host port lookup = (
    results,
    unfold connect_all in
        connect_all_with_lem
          (λ t. map_option (connect_with (elapsed t) t.address timeout_ms) (connections t))
          dns.addresses choose,
    same,
    AreDistinct-of_map _ results (rw same kept.2),
    few,
  )
    where
      dns : DnsResult
      dns = resolve resolve_elapsed literal host port lookup ipv4_only ipv6_only timeout_ms

      results : List TcpResult
      results = map result (enumerate 0 dns.addresses)

      same : map (λ (r : TcpResult). r.address) results ≡ dns.addresses
      same = addresses_of 0 dns.addresses

      kept : Keeps ipv4_only ipv6_only dns
      kept = resolve-Keeps ipv4_only ipv6_only resolve_elapsed timeout_ms literal host port lookup

      few : length results ≤ max_addresses
      few = omega (
        arith,
        ap (length {A = SocketAddr}) same,
        length-map (λ (r : TcpResult). r.address) results,
        kept.1,
      )
