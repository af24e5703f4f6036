-- ===== src/Tcp.antt =====
-- src/probe/tcp.rs: the connections to the addresses of a target. How the `JoinSet` picks the task
-- that it joins next, how each task ends and the elapsed time are arguments.
pub mod Queue
pub mod Loop
pub mod Order
pub mod Resolved
use netwhy.Prelude.{
  ℕ, zero, suc, ◌+◌, ◌%◌, Bool, String, Option, none, some, List, [], ◌∷◌, ◌++◌, ◌<>◌,
  if◌then◌else◌, length, is_empty, get_elem?, set, take, drop, replicate, decimal, unwrap_or,
  map_option,
}
use netwhy.Net.{SocketAddr}
use netwhy.Model.{Status, TcpResult, family_of}
use netwhy.Sanitize.{sanitize_report_text}

abbrev pub max_concurrent_connects : ℕ
max_concurrent_connects = 8

abbrev pub failed_task : SocketAddr → TcpResult
failed_task address = record {
  status = Status.fail;
  address = address;
  family = family_of address;
  duration_ms = 0;
  error_kind = some "other";
  error = some "TCP probe task stopped before producing evidence";
}

-- `std::io::ErrorKind`, the kinds without a name of their own as one
pub data ErrorKind : Type 0 where
  connection_refused connection_reset connection_aborted not_connected addr_in_use : ErrorKind
  addr_not_available timed_out permission_denied network_unreachable host_unreachable : ErrorKind
  any_other : ErrorKind

abbrev pub error_kind : ErrorKind → String
error_kind ErrorKind.connection_refused = "connection_refused"
error_kind ErrorKind.connection_reset = "connection_reset"
error_kind ErrorKind.connection_aborted = "connection_aborted"
error_kind ErrorKind.not_connected = "not_connected"
error_kind ErrorKind.addr_in_use = "address_in_use"
error_kind ErrorKind.addr_not_available = "address_unavailable"
error_kind ErrorKind.timed_out = "timeout"
error_kind ErrorKind.permission_denied = "permission_denied"
error_kind ErrorKind.network_unreachable = "network_unreachable"
error_kind ErrorKind.host_unreachable = "host_unreachable"
error_kind ErrorKind.any_other = "other"

-- What a connection came to within its time; an error is its kind and its text.
pub data Connection : Type 0 where
  opened : Connection
  refused : ErrorKind → String → Connection
  expired : Connection

abbrev pub connect_with : ℕ → SocketAddr → ℕ → Connection → TcpResult
connect_with elapsed address timeout_ms Connection.opened = record {
  status = Status.pass;
  address = address;
  family = family_of address;
  duration_ms = elapsed;
  error_kind = none;
  error = none;
}
connect_with elapsed address timeout_ms (Connection.refused kind error) = record {
  status = Status.fail;
  address = address;
  family = family_of address;
  duration_ms = elapsed;
  error_kind = some (error_kind kind);
  error = some (sanitize_report_text error);
}
connect_with elapsed address timeout_ms Connection.expired = record {
  status = Status.fail;
  address = address;
  family = family_of address;
  duration_ms = elapsed;
  error_kind = some "timeout";
  error = some ("connection timed out after " <> (decimal timeout_ms <> " ms"));
}

-- A task, as its closure holds it.
pub record Task : Type 0 where
  pub index : ℕ
  pub address : SocketAddr

-- `addresses.iter().copied().enumerate()`, from an index on
abbrev pub enumerate : ℕ → List SocketAddr → List Task
enumerate index [] = []
enumerate index (a ∷ rest) = record { index = index; address = a } ∷ enumerate (suc index) rest

-- The variables of `connect_all_with`: the tasks in the `JoinSet`, what the iterator has left, and
-- the results.
pub record Pool : Type 0 where
  pub running : List Task
  pub pending : List Task
  pub results : List (Option TcpResult)

-- The pool before the loop.
abbrev pub start : List SocketAddr → Pool
start addresses = record {
  running = take max_concurrent_connects (enumerate 0 addresses);
  pending = drop max_concurrent_connects (enumerate 0 addresses);
  results = replicate (length addresses) none;
}

abbrev pub remove {ℓ} : {A : Type ℓ} → List A → ℕ → List A
remove [] k = []
remove (x ∷ xs) zero = xs
remove (x ∷ xs) (suc k) = x ∷ remove xs k

-- `spawn` of the next address, where there is one
abbrev pub spawn_next : Pool → Pool
spawn_next p = elim p.pending [
  | [] ↦ p
  | t ∷ later ↦ record p { running = p.running ++ t ∷ []; pending = later }
]

abbrev pub store : List (Option TcpResult) → Task → Option TcpResult → List (Option TcpResult)
store results t none = results
store results t (some result) = set results t.index (some result)

-- How a task ends: with a result, or not at all.
abbrev pub Outcomes : Type 0
Outcomes = Task → Option TcpResult

-- A round of the loop, in which the task at the position ends.
unfoldable pub join_next : Outcomes → Pool → ℕ → Pool
join_next outcome p k = elim (get_elem? p.running k) [
  | none ↦ p
  | some t ↦
      spawn_next
        (record p { running = remove p.running k; results = store p.results t (outcome t) })
]

-- The results, each with its address.
abbrev pub finish : List (Option TcpResult) → List SocketAddr → List TcpResult
finish [] addresses = []
finish (r ∷ results) [] = []
finish (r ∷ results) (a ∷ addresses) = unwrap_or (failed_task a) r ∷ finish results addresses

-- The loop, until no task runs; `choose` is the order in which the tasks end.
unfoldable pub join_all : ℕ → Outcomes → (Pool → ℕ) → Pool → Option Pool
unfolding join_next
join_all zero outcome choose p = none
join_all (suc fuel) outcome choose p =
    let rest = join_all fuel outcome choose (join_next outcome p (choose p % length p.running)) in
    if is_empty p.running then some p else rest

unfoldable pub connect_all_with : Outcomes → (Pool → ℕ) → List SocketAddr → Option (List TcpResult)
unfolding join_all
connect_all_with outcome choose addresses =
    mathlib.Core.Option.map (λ (p : Pool). finish p.results addresses)
      (join_all (suc (length addresses)) outcome choose (start addresses))

-- `connect_all`: how long each connection took and what it came to are arguments, and a task whose
-- connection is `none` does not end with a result.
unfoldable pub connect_all :
    (Task → ℕ)
    → ℕ
    → (Task → Option Connection)
    → (Pool → ℕ)
    → List SocketAddr
    → Option (List TcpResult)
unfolding connect_all_with
connect_all elapsed timeout_ms connections choose addresses =
    connect_all_with
      (λ t. map_option (connect_with (elapsed t) t.address timeout_ms) (connections t)) choose
      addresses
