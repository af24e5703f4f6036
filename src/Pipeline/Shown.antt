-- ===== src/Pipeline/Shown.antt =====
-- `TargetReport::from` of src/lib.rs: what a report shows of the text and of the URL of its target.
use mathlib.Core.Path.{ap₂}
use Prim.Native.Char.{Char, code}
use netwhy.Prelude.{
  ℕ, ◌≡◌, ◌⊎◌, inl, inr, refl, ap, sym, ◌∙◌, true, String, ◌<>◌, Option, none, some, map_option,
  contains_char, Option-cases,
}
use netwhy.Sanitize.{sanitize_report_text}
use netwhy.Model.{TargetReport}
use netwhy.Url.{Url, Readers}
use netwhy.Target.{Target, redact_query_and_fragment, original_report_value, url_report_value}
use netwhy.Target.Report.{is_plain, fragment_mark, redact_query_and_fragment_lem}
use netwhy.Pipeline.{target_report}

-- What a text should be shown as: what stands in front of its query and its fragment, and for each of
-- the two only that it is there.
abbrev pub IsShownAs : String → String → Type 0
IsShownAs text shown =
    (pre : String) × (is_plain pre ≡ true)
    × ((text ≡ pre) × (shown ≡ pre)
        ⊎ (((c : Char) × (query : String) × (code c ≡ b'?')
              × (text ≡ pre <> String.◌∷◌ c query)
              × (shown ≡ pre <> ("?REDACTED" <> fragment_mark (contains_char b'#' query))))
            ⊎ ((c : Char) × (fragment : String) × (code c ≡ b'#')
                × (text ≡ pre <> String.◌∷◌ c fragment)
                × (shown ≡ pre <> "#REDACTED"))))

-- A URL without what its query and its fragment say
abbrev pub without_contents : Url → Url
without_contents url = record url {
  query = map_option (λ _. "") url.query;
  fragment = map_option (λ _. "") url.fragment;
}

-- Two targets that differ only in what their queries and fragments say.
pub record DifferInContents (t u : Target) (shown : String) : Type 0 where
  pub scheme : t.scheme ≡ u.scheme
  pub host : t.host ≡ u.host
  pub port : t.port ≡ u.port
  pub url : map_option without_contents t.url ≡ map_option without_contents u.url
  pub first : IsShownAs t.original shown
  pub second : IsShownAs u.original shown

redact-IsShownAs :
    (text shown : String) → IsShownAs text shown → redact_query_and_fragment text ≡ shown
redact-IsShownAs text shown (pre, h, inl (e, s)) =
    ap redact_query_and_fragment e ∙ (redact_query_and_fragment_lem pre h).0 ∙ sym s
redact-IsShownAs text shown (pre, h, inr (inl (c, query, q, e, s))) =
    ap redact_query_and_fragment e ∙ (redact_query_and_fragment_lem pre h).1 c query q ∙ sym s
redact-IsShownAs text shown (pre, h, inr (inr (c, fragment, f, e, s))) =
    ap redact_query_and_fragment e ∙ (redact_query_and_fragment_lem pre h).2 c fragment f ∙ sym s

original-IsShownAs :
    (t : Target) (shown : String)
    → IsShownAs t.original shown
    → original_report_value t ≡ sanitize_report_text shown
unfolding original_report_value
original-IsShownAs t shown h = ap sanitize_report_text (redact-IsShownAs t.original shown h)

abbrev hidden : Option String → Option String
hidden = map_option (λ _. "REDACTED")

hidden_twice : (o : Option String) → hidden (map_option (λ _. "") o) ≡ hidden o
hidden_twice none = refl
hidden_twice (some text) = refl

module _ (readers : Readers) where
  print_hidden : Url → String
  print_hidden url =
      readers.print_url (record url { query = hidden url.query; fragment = hidden url.fragment })

  print_hidden-without_contents :
      (url : Url) → print_hidden (without_contents url) ≡ print_hidden url
  unfolding print_hidden
  print_hidden-without_contents url =
      ap₂ (λ q f. readers.print_url (record url { query = q; fragment = f }))
        (hidden_twice url.query) (hidden_twice url.fragment)

  url_text : Target → Option Url → Option String
  url_text t o = map_option (λ _. url_report_value readers t) o

  url_text-hidden : (t : Target) → url_text t t.url ≡ map_option print_hidden t.url
  unfolding url_text print_hidden url_report_value
  url_text-hidden t = elim (Option-cases t.url) [ inl e ↦ rw e refl | inr (url, e) ↦ rw e refl ]

  through_contents :
      (o : Option Url)
      → map_option print_hidden (map_option without_contents o) ≡ map_option print_hidden o
  through_contents none = refl
  through_contents (some url) = ap some (print_hidden-without_contents url)

  url_text-same :
      (t u : Target)
      → map_option without_contents t.url ≡ map_option without_contents u.url
      → url_text t t.url ≡ url_text u u.url
  url_text-same t u e =
      url_text-hidden t
      ∙ sym (through_contents t.url)
      ∙ ap (map_option print_hidden) e
      ∙ through_contents u.url
      ∙ sym (url_text-hidden u)

  report_with : String → String → String → ℕ → Option String → TargetReport
  report_with original scheme host port url = record {
    original = original;
    scheme = scheme;
    host = host;
    port = port;
    url = url;
  }

  -- Two targets that differ only in what the queries and the fragments of their texts and of their URLs say
  -- have the same entry in a report, with its text, its scheme, host and port, and its URL. The text is
  -- shown up to the query or the fragment, and for each of the two only that it is there; a text with
  -- neither is shown whole, with its control characters escaped.
  pub target_report-hides :
      (t u : Target) (shown : String)
      → DifferInContents t u shown
      → (target_report readers t ≡ target_report readers u)
        × ((target_report readers t).original ≡ sanitize_report_text shown)
  unfolding target_report report_with url_text
  target_report-hides t u shown h = (
    (let a : original_report_value t ≡ original_report_value u =
          original-IsShownAs t shown h.first ∙ sym (original-IsShownAs u shown h.second) in
        let b : report_with (original_report_value t) t.scheme t.host t.port (url_text t t.url)
            ≡ report_with (original_report_value u) u.scheme u.host u.port (url_text u u.url) =
          cc (a, h.scheme, h.host, h.port, url_text-same t u h.url) in
        b),
    original-IsShownAs t shown h.first,
  )
