-- ===== src/Tests/RedactionTests.antt =====
-- src/redaction.rs
use netwhy.Prelude.{List, ◌≡◌, refl, String, Option, none, [], ◌∷◌, map, All}
use netwhy.Net.{IpAddr, port}
use netwhy.Model.{DiagnosticReport, AddressFamily, family_of}
use netwhy.Redaction.{RedactionLevel, apply}
use netwhy.Redaction.Hash.{stable_hash, pseudonym}
use netwhy.Redaction.Addresses.{socket_addresses, IsDocumentation, apply-IsDocumentation}
use netwhy.Redaction.Texts.{address_texts, AllStandIns}
use netwhy.Redaction.Forget.{forget, apply-forget}
use netwhy.Redaction.Verdict.{AgreeOnVerdict, apply-AgreeOnVerdict, apply-KeepsTransport}
use netwhy.Diagnosis.{successful}
use netwhy.Diagnosis.Transport.{all_tcp_errors, has_no_route, family_state}
use netwhy.Tests.Samples.{first_v4, only_v6, connected, timed_out, refused_attempt, report_of}

-- A reader of addresses that reads none.
abbrev reads_none : String → Option IpAddr
reads_none text = none

abbrev sample : DiagnosticReport
sample = report_of (timed_out first_v4 ∷ connected only_v6 ∷ []) (refused_attempt only_v6 ∷ [])

-- FNV-1a of the empty text and of one letter
empty_hash : stable_hash "" ≡ 0xcbf29ce484222325
unfolding stable_hash
empty_hash = refl

letter_hash : stable_hash "a" ≡ 0xaf63dc4c8601ec8c
unfolding stable_hash
letter_hash = refl

letter_pseudonym : pseudonym "host" "a" ≡ "host-af63dc4c8601ec8c"
unfolding pseudonym
letter_pseudonym = refl

apply-IsDocumentation_example :
    let shown = socket_addresses (apply reads_none RedactionLevel.strict sample) in
    All IsDocumentation shown
    × (map family_of shown ≡ map family_of (socket_addresses sample))
    × (map port shown ≡ map port (socket_addresses sample))
    × AllStandIns reads_none
        (address_texts sample)
        (address_texts (apply reads_none RedactionLevel.strict sample))
apply-IsDocumentation_example = apply-IsDocumentation reads_none sample

apply-forget_example :
    apply reads_none RedactionLevel.strict (forget sample)
    ≡ apply reads_none RedactionLevel.strict sample
apply-forget_example = apply-forget reads_none sample

apply-AgreeOnVerdict_example : AgreeOnVerdict (apply reads_none RedactionLevel.strict sample) sample
apply-AgreeOnVerdict_example = apply-AgreeOnVerdict reads_none RedactionLevel.strict sample

apply-KeepsTransport_example :
    let q = apply reads_none RedactionLevel.strict sample in
    (successful q.tcp ≡ successful sample.tcp)
    × ((kinds : List String) → all_tcp_errors q.tcp kinds ≡ all_tcp_errors sample.tcp kinds)
    × (has_no_route q.tcp q.routes ≡ has_no_route sample.tcp sample.routes)
    × ((family : AddressFamily) → family_state q.tcp family ≡ family_state sample.tcp family)
apply-KeepsTransport_example = apply-KeepsTransport reads_none sample
