-- ===== src/Diagnosis/Notes.antt =====
-- src/diagnosis.rs: `context_notes`, the remarks on the context of a conclusion. Each block of the
-- function that may push notes is a definition that returns what it pushes.
use netwhy.Prelude.{
  Bool, true, false, not, ◌&&◌, ◌||◌, String, Option, none, some, List, [], ◌∷◌, ◌++◌, map,
  if◌then◌else◌, any, keep, filter_map, is_empty, str_eq, starts_with, join, ◌<>◌,
}
use netwhy.Net
use netwhy.Net.Display.{display}
use netwhy.Model.{
  Status, is_warn, is_unavailable, DiagnosticReport, RouteResult, MtuResult, FirewallMatch,
  PluginResult,
}

pub is_tunnel : String → Bool
is_tunnel interface =
    any (λ prefix. starts_with interface prefix)
      ("wg" ∷ "tun" ∷ "tap" ∷ "tailscale" ∷ "zt" ∷ "vpn" ∷ [])

abbrev note_if : Bool → String → List String
note_if b note = if b then note ∷ [] else []

unavailable_note : Option String → String
unavailable_note none = "The selected process proxy environment was unavailable."
unavailable_note (some error) = "The selected process proxy environment was unavailable: " <> error

tunnel_interfaces : List RouteResult → List String
tunnel_interfaces routes = keep is_tunnel (filter_map (λ route. route.interface) routes)

mtu_note : MtuResult → String
mtu_note mtu =
    "Path MTU for "
    <> (display (Net.ip mtu.address)
        <> " is lower than the selected route MTU or protocol minimum.")

pub is_exact_drop : FirewallMatch → Bool
is_exact_drop rule =
    str_eq rule.confidence "exact"
    && (str_eq rule.verdict "drop"
        || str_eq rule.verdict "reject"
        || str_eq rule.verdict "policy:drop")

firewall_note : FirewallMatch → String
firewall_note rule =
    "Read-only nftables analysis found an applicable "
    <> (rule.verdict <> (" verdict in " <> (rule.table <> ("/" <> (rule.chain <> ".")))))

pub is_plugin_concern : Status → Bool
is_plugin_concern Status.warn = true
is_plugin_concern Status.fail = true
is_plugin_concern _ = false

plugin_note : PluginResult → String
plugin_note plugin =
    "Plugin "
    <> (plugin.name
        <> (" reported "
            <> ((if is_warn plugin.status then "a warning" else "a failure")
                <> (": " <> plugin.summary))))

unfoldable pub context_notes : DiagnosticReport → List String
unfolding is_tunnel unavailable_note tunnel_interfaces mtu_note is_exact_drop firewall_note
    is_plugin_concern plugin_note
context_notes report =
    let context = report.request.execution_context in
    let interfaces = tunnel_interfaces report.routes in
    note_if (is_unavailable context.proxy_environment) (unavailable_note context.proxy_error)
    ++ (note_if (not (is_empty report.proxies) && str_eq report.request.proxy_mode "direct")
          "Proxy environment variables are set; direct mode bypassed them. Use --proxy-mode environment to test through the selected proxy."
        ++ (note_if report.dns.truncated
              "DNS returned more than 32 unique addresses; probes were capped at the first 32."
            ++ (note_if (not (is_empty interfaces)) (
                  "The selected route uses a tunnel or VPN interface: "
                  <> (join ", " interfaces <> "."))
                ++ (note_if report.path_evidence.network_manager.vpn_active
                      "NetworkManager reports an active VPN or tunnel connection."
                    ++ (map mtu_note (keep (λ mtu. is_warn mtu.status) report.path_evidence.mtu)
                        ++ (map firewall_note
                              (keep is_exact_drop report.path_evidence.firewall.matches)
                            ++ map plugin_note (
                                keep (λ plugin. is_plugin_concern plugin.status)
                                  report.plugins)))))))
