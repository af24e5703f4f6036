-- ===== src/Tests/PluginTests.antt =====
-- src/plugin.rs
use netwhy.Prelude.{◌≡◌, refl, true, false, none, some}
use netwhy.Prelude.Results.{Result}
use netwhy.Json.{Value, Members}
use netwhy.Plugin.{PluginDocument, PluginRun, invoke_plugin, sanitize_json}
use netwhy.Plugin.Bounded.{IsClean, IsOfDocument, invoke_plugin-IsClean}

abbrev document : PluginDocument
document = record {
  protocol_version = 1;
  name = "portal";
  status = "warn";
  summary = "captive portal";
  evidence = Value.object (Members.member "seen" (Value.string "a\nb") Members.end);
  error_kind = none;
  error = none;
}

abbrev run : PluginRun
run = PluginRun.finished false true "" (Result.ok document)

-- A text of the evidence is escaped, and the key of an object is not.
key_kept :
    sanitize_json (Value.object (Members.member "a\nb" (Value.string "a\nb") Members.end))
    ≡ Value.object (Members.member "a\nb" (Value.string "a\\nb") Members.end)
unfolding sanitize_json
key_kept = refl

invoke_plugin-IsClean_example :
    IsClean (invoke_plugin (some "portal") "not found" run)
    × IsOfDocument run (invoke_plugin (some "portal") "not found" run)
invoke_plugin-IsClean_example = invoke_plugin-IsClean (some "portal") "not found" run
