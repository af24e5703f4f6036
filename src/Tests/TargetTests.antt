-- ===== src/Tests/TargetTests.antt =====
-- src/target.rs
use netwhy.Prelude.{ℕ, ◌<◌, ◌≡◌, refl, ap, ◌∙◌, none, some, arith}
use mathlib.Core.Option.{some-injective}
use mathlib.Core.Logic.{◌↔◌}
use netwhy.Prelude.Results.{Result, ok-injective}
use netwhy.Url.{Host, Url, Readers, AreReaders}
use netwhy.Target.{Target, from_url, parse_target, parse_trimmed}
use netwhy.Target.Parsed.{IsTarget, IsAccepted, from_url-IsAccepted, parse_target-IsTarget}
use netwhy.Prelude.{trim}

abbrev pub sample_url : Url
sample_url = record {
  scheme = "http";
  username = "";
  password = none;
  host = some (Host.domain "example.com");
  port = some 8080;
  path = "/x";
  query = none;
  fragment = none;
}

-- Readers that know one URL
abbrev pub sample_readers : Readers
sample_readers = record {
  read_url = λ text. Result.ok sample_url;
  print_url = λ url. "http://example.com:8080/x";
  read_socket = λ text. none;
  read_ip = λ text. none;
}

pub sample_readers_law : AreReaders sample_readers
sample_readers_law = record {
  url_port = λ text url p e k. port_is (ok-injective sample_url url e) k;
  socket_port = λ text address e. cc;
}
  where
    port_is : {url : Url} {p : ℕ} → sample_url ≡ url → url.port ≡ some p → p < 65536
    port_is {url = url} {p = p} e k =
        let same : 8080 ≡ p = some-injective 8080 p (ap (λ (u : Url). u.port) e ∙ k) in
        omega (arith, same)

abbrev pub sample_target : Target
sample_target = record {
  original = "http://example.com:8080/x";
  scheme = "http";
  host = "example.com";
  port = 8080;
  url = some sample_url;
  literal_address = none;
}

sample_target_parsed :
    parse_target sample_readers " http://example.com:8080/x" ≡ Result.ok sample_target
unfolding parse_target parse_trimmed trim from_url
sample_target_parsed = refl

parse_target-IsTarget_example :
    IsTarget sample_target × (sample_target.original ≡ trim " http://example.com:8080/x")
parse_target-IsTarget_example =
    parse_target-IsTarget sample_readers sample_readers_law sample_target
      " http://example.com:8080/x" sample_target_parsed

from_url-IsAccepted_example :
    ((t : Target) × (from_url "http://example.com:8080/x" sample_url ≡ Result.ok t))
    ↔ IsAccepted sample_url
from_url-IsAccepted_example = from_url-IsAccepted "http://example.com:8080/x" sample_url
