-- ===== src/Lib.antt =====
-- netwhy: verification of the core of a network diagnosis tool.
--
-- The program probes a target (src/target.rs) and explains what it finds. It resolves the name
-- (src/probe/dns.rs), connects to every address (src/probe/tcp.rs), speaks the application protocol
-- (src/probe/application.rs), directly or through a proxy that it selects (src/proxy.rs), gathers
-- evidence on the path, draws a conclusion from the whole report (src/diagnosis.rs), pseudonymises the report
-- where a policy asks for it (src/redaction.rs), and compares two saved reports (src/compare.rs). The
-- report of src/model.rs is what the parts have in common: the probes fill it, the diagnosis reads
-- it and writes the conclusion, the redaction maps it, the comparison works on its JSON.
--
-- Files:
-- - Prelude and its children: Boolean tests, lists over the native numbers, options, results, texts.
-- - Net: `IpAddr` and `SocketAddr` of the standard library, their order (Net/Order, Net/Least) and
--   how an address is printed (Net/Display).
-- - Json: the values that src/compare.rs and src/redaction.rs exchange with serde_json.
-- - Model: every record and enumeration of src/model.rs, under the names of the source.
-- - Sanitize: `sanitize_report_text` of src/lib.rs.
-- - Dns: `resolve`, `resolve_lookup` and `resolved_result`. Dns/Selection and Dns/Result hold the
--   proofs.
-- - Tcp: `connect_all_with` as a state machine. A `Pool` is the tasks of the `JoinSet`, what the
--   iterator has left and the results; `join_next` is a round of the loop. Tcp/Queue, Tcp/Loop and
--   Tcp/Order hold the proofs, and Tcp/Resolved those on the chain from Dns to Tcp.
-- - Diagnosis: `explain` and all that it calls, over a draft of the report and its suggestions
--   (Diagnosis/State); Notes, Transport, Application and Proxy are the parts of the source. Spec says
--   what evidence each code stands for; Facts, TcpFacts, Verdict, Exit, Frame, Application/Order and
--   Application/Deepest hold the proofs.
-- - Compare: `diff_values` by structural recursion on the value on the left; Compare/Files models
--   `describe_input` and `compare_files`. Compare/Differences is the specification, which knows no
--   limit; Compare/Limit, Compare/Outcome and Compare/Volatile hold the proofs.
-- - Redaction: `apply` and its parts; Redaction/Hash has the hash, the pseudonyms and the addresses.
--   Redaction/Texts, Redaction/Addresses, Redaction/Forget and Redaction/Verdict hold the proofs.
-- - Url: a parsed URL as its components, and the readers and printers that stand for other crates.
-- - Target: `Target`, its `parse` and what of it stands in requests and in the report; Target/Parsed
--   and Target/Report hold the proofs.
-- - Proxy: `SelectedProxy` and the parts of src/proxy.rs: Proxy/Bypass is NO_PROXY, Proxy/Plan the
--   choice of a proxy, Proxy/Base64 the authorisation header with its proof; Proxy/Kept holds the
--   proofs on plans.
-- - ApplicationProbe: Stream is a connection as the bytes to come and those that were written, and an
--   async block as a function of it. Socks, Lines and Http are the protocols, Attempt one attempt with
--   its report, Tunnel the connection to a proxy, Loop the two loops over addresses. Socks/Request,
--   Socks/Reply, Lines/Drained, Lines/Parsed, Lines/Wellformed, Http/Bounded, Http/Coherent,
--   Http/Answered, Loop/Until, Loop/Tried and Loop/Paired hold the proofs.
-- - Pipeline: `diagnose_with_context` as the composition of the other parts; Pipeline/Variables is what
--   is kept and shown of proxy variables. Pipeline/Diagnosed, Pipeline/Hidden and Pipeline/Shown hold the
--   proofs.
-- - Route: src/probe/route.rs for one address; Route/Bounded holds the proof on captured output.
-- - Plugin: src/plugin.rs for one plugin; Plugin/Bounded holds the proofs.
-- - Tests: runs on concrete inputs, and the theorems at inputs that meet their hypotheses.
--
-- Bounds: the program keeps 32 resolved addresses, 16 addresses of a proxy, 8 connections at a time
-- and 256 changes; it reads lines of 8192 bytes, 65536 bytes of headers and 8 informational responses;
-- and so does the model. Two loops run on fuel: that of `connect_all_with` on one more than there are
-- addresses, since each round ends a task for good, and that of `drain_headers` on 32769, since each round adds
-- two bytes to a total that is limited to 65536; running out of fuel is `none`, which is no result of the
-- program. Numbers are unbounded, but for the hash, which wraps at 2 ^ 64. These panics are `none`: the
-- `expect` on the failed attempts in the diagnosis, the `expect` on the host of a proxy's URL in planning and
-- in the handshake with a proxy, and the `unreachable!` for another scheme of the target and for a proxy
-- without evidence. The panic of a TCP task is one of the ways in which it ends. Other panics are not
-- represented.
--
-- Arguments of the model: the clock, what the system resolver answers, how each connection ends and
-- in what order tasks end, how the standard library reads an IP address, what the files to compare
-- were read as, the name and version that the build puts in; for a target and a proxy the URL parser
-- and printer, percent decoding and the lookup of names; for the application probe how a connection
-- opens, its bytes, what a TLS handshake comes to with the certificates it yields, and which steps run
-- out of time; for routes and plugins what their processes come to. A number in JSON that is not an
-- unsigned integer is known by an index. The members of a JSON object stand in the order of their keys.
--
-- Not modelled: processes, sockets, files and TLS, which are the system's or other crates'; the
-- parser of the command line, which is derived; the rendering for people; and, so far, the details of
-- certificates, the task pools of the route probe and of the plugins, the path probe, and the contexts
-- of processes and containers. The pipeline takes what these find as values.
mod Prelude
pub mod Net
pub mod Json
pub mod Sanitize
pub mod Dns
pub mod Tcp
pub mod Model
pub mod Diagnosis
pub mod Compare
pub mod Redaction
pub mod Url
pub mod Target
pub mod Proxy
pub mod ApplicationProbe
pub mod Route
pub mod Pipeline
pub mod Plugin
mod Tests
