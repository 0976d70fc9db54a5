-- ===== src/Tests/Fronting.antt =====
-- Concrete upstream servers, and calls through `run_mcp` of crates/guardian-cli/src/main.rs and through both
-- ends of crates/guardian-mcp-gateway/src/lib.rs.
use project_guardian.Common.{
  All-of, ℕ, ◌+◌, ok, bytes, member, some, none, [], ◌∷◌, ◌≡◌, refl, false, arith, Text, List,
  Result, Option,
}
use project_guardian.Core
use project_guardian.Core.{Value, string, object, end, get, as_str, allow, is_critical}
use project_guardian.Gateway.Call.{ToolCall}
use project_guardian.Gateway.Upstream.{Server, namespaced_name}
use project_guardian.Gateway.Mcp.{call_for}
use project_guardian.Gateway.Handle.Mediation.{action_of}
use project_guardian.Cli.Mcp.{
  label_of, parse_upstream, derive_label, gather, fronted_forward, Gathered, builtin, ports_in,
  config_in, server_in,
}
use project_guardian.Cli.Mcp.Reaching.{label_in, program_in, arguments_in, credited, gather-forward}
use project_guardian.Cli.Mcp.Denying.{tools_call-alone}
use project_guardian.Gateway.Mcp.{new, ToolRouter, McpServer}
use project_guardian.Gateway.State.{allowed}
use project_guardian.Gateway.Upstream.Stdio.{Connection, serve_stdio, spawn}
use project_guardian.Gateway.Upstream.Stdio.Conversation.{
  handshake, said, IsReadBack, forward_calls, route_calls, spawn-forward_calls,
}
use project_guardian.Tests.Reading.{coded, decoded, decoded-coded, coded-shows}
use project_guardian.Gateway.Handle
use project_guardian.Gateway.Handle.{
  handle, decide, mediate, conclude, consult, normalize, record_entry,
}
use project_guardian.Gateway.Call.{build_action}
use project_guardian.Gateway.Paths.{override_deny}
use project_guardian.Policy.Engine.{evaluate, rule_decision}
use project_guardian.Audit.Log.{append, empty}
use project_guardian.Audit.Log.Chain.{empty-IsIntact}
use project_guardian.Gateway.State.{tokenization_on}
use project_guardian.Gateway.Mcp.{content, with_classifier, tools_call}
use project_guardian.Gateway.Mcp.Guarded.{gateway_router}
use project_guardian.Tests.Samples.{
  sample_broker, sample_ed, sample_cel, no_number, sample_hash, sample_ports, sample_config,
  sample_env, sample_state,
}

abbrev echoing : Server
echoing = record { tools = []; forward = λ call. ok call.args }

abbrev start_echoing : Text → List Text → Result Server Text
start_echoing program args = ok echoing

abbrev two_upstreams : List Text
two_upstreams = bytes "bank=/usr/bin/pay --all" ∷ bytes " /opt/fs.py ~ " ∷ []

parse_upstream_test :
    (parse_upstream (bytes " bank= /usr/bin/pay  --all ")
      ≡ (some (bytes "bank"), (bytes "/usr/bin/pay", bytes "--all" ∷ [])))
    × (parse_upstream (bytes "run a=b") ≡ (none, (bytes "run", bytes "a=b" ∷ [])))
    × (derive_label (bytes "/opt/fs.py") ≡ bytes "fs")
    × (derive_label (bytes "/opt/.fs") ≡ [])
unfolding parse_upstream derive_label bytes
parse_upstream_test = (refl, refl, refl, refl)

abbrev pay_call : ToolCall
pay_call = record { tool = []; args = object end; kind = none; capability = none; session = none }

abbrev gathered_two : Gathered
gathered_two =
    ((bytes "fs", echoing) ∷ (bytes "bank", echoing) ∷ [], bytes "fs" ∷ bytes "bank" ∷ [])

gather-forward_example :
    (server : Server) × (start_echoing
        (program_in (bytes "bank=/usr/bin/pay --all"))
        (arguments_in (bytes "bank=/usr/bin/pay --all"))
      ≡ ok server)
    × (fronted_forward (some sample_broker) gathered_two (record pay_call {
      tool = namespaced_name (label_in false (bytes "bank=/usr/bin/pay --all")) (bytes "pay");
    })
        ≡ server.forward (record {
          tool = bytes "pay";
          args =
              credited start_echoing false
                (some sample_broker)
                (label_in false (bytes "bank=/usr/bin/pay --all"))
                pay_call.args;
          kind = none;
          capability = none;
          session = none;
        }))
unfolding gather parse_upstream derive_label label_of bytes member
gather-forward_example =
    gather-forward start_echoing false two_upstreams gathered_two (some sample_broker)
      (bytes "bank=/usr/bin/pay --all") (bytes "pay") pay_call refl refl (ground arith) refl

-- Nothing reads or prints JSON text.
abbrev unread_text : Text → Option Value
unread_text s = none

abbrev unprinted_value : Value → Text
unprinted_value v = []

abbrev read_params : Value
read_params = object (Core.member (bytes "name") (string (bytes "read_file")) end)

tools_call-alone_example :
    let p = ports_in builtin sample_ports in
    let c = config_in sample_ed sample_cel builtin sample_config.policy sample_env in
    let server = server_in sample_ed sample_cel builtin (bytes "1") sample_config.policy in
    let action =
      action_of sample_ed sample_cel no_number p c sample_hash
        (call_for server (bytes "read_file") read_params)
        sample_state in
    ((evaluate sample_cel no_number sample_config.policy action sample_env).decision ≡ allow)
    × (is_critical action ≡ false)
unfolding get bytes as_str is_critical normalize build_action call_for with_classifier tools_call
    gateway_router handle decide override_deny mediate conclude consult evaluate rule_decision
    record_entry append empty Handle.dispatch content tokenization_on ports_in config_in server_in
tools_call-alone_example =
    tools_call-alone sample_ed sample_cel no_number sample_hash unread_text unprinted_value builtin
      sample_ports sample_config.policy sample_env (bytes "1") (bytes "read_file") read_params
      (content [] false) sample_state refl (empty-IsIntact sample_hash) refl

abbrev counting : ToolRouter ℕ
counting = record { route = λ call n. (allowed call.args, n + 1) }

abbrev reading_server : McpServer
reading_server =
    new (bytes "1")
      (record { name = bytes "read"; description = []; input_schema = object end } ∷ [])

-- Two calls of a tool.
abbrev two_calls : List ToolCall
two_calls = pay_call ∷ record pay_call { tool = bytes "read" } ∷ []

coded_lem : (v : Value) → IsReadBack ℕ counting decoded coded reading_server [] [] v
coded_lem v = (decoded-coded v, coded-shows v)

spawn-forward_calls_example :
    (c : Connection ℕ) × (spawn ℕ
        (serve_stdio ℕ counting decoded coded reading_server)
        decoded
        coded
        []
        []
        0
      ≡ ok (reading_server.tools, c))
    × (forward_calls ℕ counting decoded coded reading_server [] [] two_calls c ≡ (
        let (answers, w') = route_calls ℕ counting decoded coded reading_server [] [] two_calls 0 in
        (answers, record { process = w'; unread = []; id_counter = 5 })))
spawn-forward_calls_example =
    spawn-forward_calls ℕ counting decoded coded reading_server [] [] two_calls 0 (ground arith)
      (All-of _ (handshake ℕ counting decoded coded reading_server [] [] 0) coded_lem)
      (All-of _ (said ℕ counting decoded coded reading_server [] [] two_calls 0 3) coded_lem)
