-- ===== src/Tests/ProxyTests.antt =====
-- src/proxy.rs
use netwhy.Prelude.{◌≡◌, refl, true, false, none, some, [], ◌∷◌, bytes}
use netwhy.Proxy.{ProxyLookup}
use netwhy.Proxy.Bypass.{Environment, variable, no_proxy_matches}
use netwhy.Proxy.Plan.{ProxyMode, ProxyArgs, plan}
use netwhy.Proxy.Base64.{base64, decode_base64, decode_base64-base64}
use netwhy.Proxy.Kept.{KeepsPlan, plan-KeepsPlan}
use netwhy.Tests.TargetTests.{sample_readers, sample_target}
use netwhy.Tests.Samples.{first_v4}

-- RFC 7617, section 2
base64_login : base64 "Aladdin:open sesame" ≡ "QWxhZGRpbjpvcGVuIHNlc2FtZQ=="
unfolding base64
base64_login = refl

decode_base64-base64_example : decode_base64 (base64 "user:pass") ≡ some (bytes "user:pass")
decode_base64-base64_example = decode_base64-base64 "user:pass"

abbrev environment : Environment
environment = ("NO_PROXY", "internal.test") ∷ ("http_proxy", "http://proxy.test:3128") ∷ []

exempt : no_proxy_matches (λ text. none) "a.internal.test" 80 environment ≡ true
unfolding no_proxy_matches variable
exempt = refl

not_exempt : no_proxy_matches (λ text. none) "internal.example" 80 environment ≡ false
unfolding no_proxy_matches variable
not_exempt = refl

abbrev args : ProxyArgs
args = record { proxy_url = none; proxy_mode = ProxyMode.environment; ipv4 = false; ipv6 = false }

plan-KeepsPlan_example : KeepsPlan args (
    plan sample_readers args sample_target environment 1000
      (λ host port. ProxyLookup.found (first_v4 ∷ [])))
plan-KeepsPlan_example =
    plan-KeepsPlan args sample_readers sample_target 1000
      (λ host port. ProxyLookup.found (first_v4 ∷ [])) environment
