-- ===== src/Tests/ProbeTests.antt =====
-- src/probe/dns.rs, src/probe/tcp.rs and `sanitize_report_text` of src/lib.rs
use netwhy.Prelude.{
  ◌≤◌, Option, ℕ, ◌≡◌, refl, true, false, none, some, List, [], ◌∷◌, arith, map, take, length, ltb,
  ◌==◌, if◌then◌else◌, map_option,
}
use netwhy.Net.{SocketAddr, IpAddr, addr_eq}
use netwhy.Model.{TcpResult}
use netwhy.Sanitize.{sanitize_report_text}
use netwhy.Sanitize.Quiet.{is_quiet, is_quiet-sanitize_report_text}
use netwhy.Dns.{resolve, resolved_result, Lookup, max_addresses}
use netwhy.Dns.Selection.{wanted}
use netwhy.Dns.Result.{IsConsistent, Keeps, resolved_result-wanted, resolve-Keeps}
use netwhy.Tcp.{
  Task, Outcomes, Pool, start, connect_all, connect_all_with, join_next, connect_with, failed_task,
  Connection, ErrorKind,
}
use netwhy.Tcp.Loop.{IsPool, Reaches, Reaches-IsPool}
use netwhy.Tcp.Order.{connect_all_with_lem}
use netwhy.Tcp.Resolved.{connect_all-resolve}
use netwhy.Net.Least.{AreDistinct}
use netwhy.Tests.Samples.{first_v4, second_v4, only_v6}

abbrev answer : List SocketAddr
answer = first_v4 ∷ only_v6 ∷ first_v4 ∷ second_v4 ∷ []

wanted_v4 : wanted true false answer ≡ first_v4 ∷ second_v4 ∷ []
unfolding wanted addr_eq
wanted_v4 = refl

resolved_v4 : (resolved_result 5 answer true false).addresses ≡ first_v4 ∷ second_v4 ∷ []
unfolding resolved_result addr_eq
resolved_v4 = refl

resolved_result-wanted_example :
    let r = resolved_result 5 answer true false in
    (r.addresses ≡ take max_addresses (wanted true false answer))
    × (r.truncated ≡ ltb max_addresses (length (wanted true false answer)))
    × IsConsistent r
resolved_result-wanted_example = resolved_result-wanted 5 answer true false

resolve-Keeps_example :
    Keeps false true
      (resolve 5 none (some (IpAddr.v4 0xc0000201)) 443 (Lookup.resolved answer) false true 3000)
resolve-Keeps_example =
    resolve-Keeps false true 5 3000 none (some (IpAddr.v4 0xc0000201)) 443 (Lookup.resolved answer)

-- The second task panics; the first is refused; the third connects.
abbrev ends : Outcomes
ends t =
    if t.index == 0
    then some
        (connect_with 2 t.address 3000 (Connection.refused ErrorKind.connection_refused "refused"))
    else if t.index == 1
    then none
    else some (connect_with 7 t.address 3000 Connection.opened)

abbrev three : List SocketAddr
three = first_v4 ∷ second_v4 ∷ only_v6 ∷ []

abbrev last_first : Pool → ℕ
last_first p = 2

connected_three :
    map_option (map (λ (r : TcpResult). r.error_kind)) (connect_all_with ends last_first three)
    ≡ some (some "connection_refused" ∷ some "other" ∷ none ∷ [])
unfolding connect_all_with sanitize_report_text
connected_three = refl

connect_all_with_lem_example :
    connect_all_with ends last_first three
    ≡ some (
        connect_with 2 first_v4 3000 (Connection.refused ErrorKind.connection_refused "refused")
        ∷ failed_task second_v4
        ∷ connect_with 7 only_v6 3000 Connection.opened
        ∷ [])
connect_all_with_lem_example = connect_all_with_lem ends three last_first

Reaches-IsPool_example : IsPool ends three (join_next ends (start three) 1)
Reaches-IsPool_example = Reaches-IsPool ends three (Reaches.joins Reaches.begins 1 (omega arith))

is_quiet-sanitize_report_text_example : is_quiet (sanitize_report_text "a\tb") ≡ true
is_quiet-sanitize_report_text_example = is_quiet-sanitize_report_text "a\tb"

abbrev connections : Task → Option Connection
connections t = if t.index == 1 then none else some Connection.opened

connect_all-resolve_example :
    let dns = resolve 5 none none 443 (Lookup.resolved answer) false false 3000 in
    (results : List TcpResult) × (connect_all (λ t. 4) 3000 connections last_first dns.addresses
      ≡ some results)
    × (map (λ (r : TcpResult). r.address) results ≡ dns.addresses)
    × AreDistinct (λ (r : TcpResult). r.address) results
    × (length results ≤ max_addresses)
connect_all-resolve_example =
    connect_all-resolve (λ t. 4) 3000 connections last_first false false 5 none none 443
      (Lookup.resolved answer)
