-- ===== src/Net/Display.antt =====
-- `{}` of an IP address: dotted decimals, and the compressed form of an IPv6 address, in which the
-- first longest run of two zero segments or more is left out.
use netwhy.Prelude.{
  ℕ, ◌+◌, ◌/◌, ◌%◌, ◌^◌, ◌&&◌, String, List, [], ◌∷◌, ltb, ◌==◌, if◌then◌else◌, take, drop, ◌≡◌,
  refl, map, ◌<>◌, join, decimal, lower_hex,
}
use netwhy.Net.{IpAddr, v4, v6}

-- The byte of an IPv4 address that stands above `k` others.
abbrev octet : ℕ → ℕ → ℕ
octet ip k = ip / 256 ^ k % 256

abbrev ipv4_text : ℕ → String
ipv4_text ip =
    join "." (
      decimal (octet ip 3)
      ∷ decimal (octet ip 2)
      ∷ decimal (octet ip 1)
      ∷ decimal (octet ip 0)
      ∷ [])

-- The eight segments of an IPv6 address, the highest first.
abbrev segments : ℕ → List ℕ
segments ip = map (λ k. ip / 65536 ^ k % 65536) (7 ∷ 6 ∷ 5 ∷ 4 ∷ 3 ∷ 2 ∷ 1 ∷ 0 ∷ [])

record Span : Type 0 where
  start : ℕ
  len : ℕ

abbrev no_span : Span
no_span = record { start = 0; len = 0 }

-- One round of the search for the longest run of zeros, at position `i`.
grow : Span → ℕ → Span
grow current i = record {
  start = (if current.len == 0 then i else current.start);
  len = current.len + 1;
}

longest_from : ℕ → Span → Span → List ℕ → Span
longest_from i longest current [] = longest
longest_from i longest current (segment ∷ rest) =
    let zero_run = grow current i in
    longest_from (i + 1)
      (if segment == 0 && ltb longest.len zero_run.len then zero_run else longest)
      (if segment == 0 then zero_run else no_span) rest

ipv6_text : ℕ → String
unfolding longest_from grow
ipv6_text ip =
    if ip / 2 ^ 32 == 65535
    then "::ffff:" <> ipv4_text (ip % 2 ^ 32)
    else (let parts = segments ip in
        let zeroes = longest_from 0 no_span no_span parts in
        if ltb 1 zeroes.len
        then join ":" (map lower_hex (take zeroes.start parts))
          <> ("::" <> join ":" (map lower_hex (drop (zeroes.start + zeroes.len) parts)))
        else join ":" (map lower_hex parts))

unfoldable pub display : IpAddr → String
unfolding ipv6_text decimal lower_hex
display (v4 ip) = ipv4_text ip
display (v6 ip) = ipv6_text ip

loopback : display (v6 1) ≡ "::1"
unfolding display
loopback = refl

documentation : display (v6 0x20010db8000000000001000000000001) ≡ "2001:db8::1:0:0:1"
unfolding display
documentation = refl

dotted : display (v4 0xc0000201) ≡ "192.0.2.1"
unfolding display
dotted = refl
