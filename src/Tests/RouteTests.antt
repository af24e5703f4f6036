-- ===== src/Tests/RouteTests.antt =====
-- src/probe/route.rs
use netwhy.Prelude.{ℕ, List, ◌≡◌, refl, true, none, some, [], ◌∷◌, length, ltb, take}
use netwhy.Model.{Status, RouteResult}
use netwhy.Json.{Value, Members, Number}
use netwhy.Route.{
  Parsed, parse_iproute2_route, parse_macos_route, read_bounded, max_route_output_bytes,
  is_no_route_error, read_line,
}
use netwhy.Route.Bounded.{concat, read_bounded-take}
use netwhy.Tests.Samples.{first_v4}

abbrev found_route : RouteResult
found_route = record {
  status = Status.pass;
  address = first_v4;
  interface = some "eth0";
  gateway = none;
  source = none;
  mtu = some 1400;
  advmss = none;
  error_kind = none;
  error = none;
}

-- The maximum of the route stands among its metrics.
linux_route :
    parse_iproute2_route first_v4 (
      Value.object (
        Members.member "dev" (Value.string "eth0") (
          Members.member "metrics"
            (Value.object (Members.member "mtu" (Value.number (Number.unsigned 1400)) Members.end))
            Members.end))
      ∷ [])
    ≡ Parsed.route found_route
unfolding parse_iproute2_route
linux_route = refl

macos_route :
    parse_macos_route first_v4 "   route to: x\n  interface: eth0\n      mtu: 1400\n"
    ≡ Parsed.route found_route
unfolding parse_macos_route read_line
macos_route = refl

no_route : is_no_route_error "RTNETLINK answers: Network is unreachable" ≡ true
unfolding is_no_route_error
no_route = refl

abbrev printed : List (List ℕ)
printed = (65 ∷ 66 ∷ []) ∷ (67 ∷ []) ∷ []

read_bounded-take_example :
    ((read_bounded printed).bytes ≡ take max_route_output_bytes (concat printed))
    × ((read_bounded printed).truncated ≡ ltb max_route_output_bytes (length (concat printed)))
read_bounded-take_example = read_bounded-take printed
