-- ===== src/Cli/Mcp.antt =====
-- crates/guardian-cli/src/main.rs: `run_mcp` and what it puts together, for the upstream servers and for the
-- gateway on its own. Starting a server, the files, the policy's text and the daemon's answers are
-- parameters; standard input and output are left out.
pub mod Reaching
pub mod Denying
use project_guardian.Common.{
  ℕ, ℤ, Bool, true, false, ◌||◌, not, Option, none, some, and_then, or_else, unwrap_or, List, [],
  ◌∷◌, ◌++◌, Text, bytes, trim, has_space, split_whitespace, contains, Map, Result, ok, err, ◌>>=◌,
  if◌then◌else◌, ◌==◌,
}
use project_guardian.Core.{
  Value, null, string, object, end, member, get, as_str, ActionKind, Action,
}
use project_guardian.Crypto.{Ed25519}
use project_guardian.Policy.Cel.{Cel}
use project_guardian.Policy.Engine.{CompiledPolicy, EvalEnv}
use project_guardian.Audit.Log.{empty}
use project_guardian.Broker.Store.{Broker}
use project_guardian.Vault.Store.{split_at_first}
use project_guardian.Gateway.Call.{ToolCall}
use project_guardian.Gateway.State.{
  Explanation, ApprovalResponse, approved, denied, Ports, Config, State,
}
use project_guardian.Gateway.Mcp.{ToolSpec, McpServer, new, with_classifier}
use project_guardian.Gateway.Upstream.{Server, add, tools, forward}
use project_guardian.Checker.{stub_explain}
use project_guardian.Cli.Brokered.{forward_with}
use project_guardian.Cli.Hook.{until, behind_last}

unfoldable pub is_blank : Text → Bool
is_blank [] = true
is_blank (_ ∷ _) = false

-- What stands before `=` is a label.
is_label : Text → Bool
unfolding is_blank has_space contains
is_label l = not (is_blank l || (has_space l || contains l (b'/' ∷ [])))

label_and_command : Text → Option (Text × Text) → Option Text × Text
unfolding is_label trim
label_and_command spec none = (none, spec)
label_and_command spec (some (l, c)) = if is_label l then (some l, trim c) else (none, spec)

words_of : Option Text → List Text → Option Text × (Text × List Text)
words_of label [] = (label, ([], []))
words_of label (program ∷ args) = (label, (program, args))

-- `parse_upstream`
unfoldable pub parse_upstream : Text → Option Text × (Text × List Text)
unfolding label_and_command words_of split_whitespace split_at_first trim
parse_upstream spec =
    let spec = trim spec in
    let (label, cmd) = label_and_command spec (split_at_first (b'=' ∷ []) spec) in
    words_of label (split_whitespace cmd)

-- `derive_label`
unfoldable pub derive_label : Text → Text
unfolding until behind_last
derive_label program = until (λ c. c == b'.') (unwrap_or (behind_last b'/' program) program)

unfoldable pub label_of : Bool → Option Text → Text → Text
unfolding derive_label
label_of single (some l) program = l
label_of single none program = if single then [] else derive_label program

-- The servers that run, and the labels that the broker's tokens are for.
abbrev pub Gathered : Type 0
Gathered = Map Server × List Text

-- `McpStdioUpstream::spawn` is a parameter.
module _ (spawn : Text → List Text → Result Server Text) where
  spawned : Text → Result Server Text → Result Server Text
  unfolding bytes
  spawned program (ok server) = ok server
  spawned program (err e) = err (bytes "upstream '" ++ (program ++ (bytes "': " ++ e)))

  registered : Text → Bool × Map Server → List Text → Result Gathered Text
  unfolding bytes
  registered label (true, servers) labels = ok (servers, label ∷ labels)
  registered label (false, servers) labels = err (
      bytes "duplicate upstream label '"
      ++ (label ++ bytes "' — give each --upstream a unique label=..."))

  launch : Bool → Option Text × (Text × List Text) → Gathered → Result Gathered Text
  unfolding spawned registered label_of add is_blank bytes
  launch single (label_opt, (program, args)) (servers, labels) =
      if is_blank program then err (bytes "--upstream command is empty") else (do
        server ← spawned program (spawn program args)
        let label = label_of single label_opt program
        registered label (add label server servers) labels)

  -- The loop of `run_mcp` over the upstreams.
  unfoldable pub gather : Bool → List Text → Gathered → Result Gathered Text
  unfolding launch parse_upstream
  gather single [] g = ok g
  gather single (spec ∷ specs) g = do
    g' ← launch single (parse_upstream spec) g
    gather single specs g'

-- With secrets the broker puts its tokens into what is forwarded.
unfoldable pub fronted_forward : Option Broker → Gathered → ToolCall → Result Value Text
unfolding forward forward_with
fronted_forward none (servers, labels) call = forward servers call
fronted_forward (some broker) (servers, labels) call =
    forward_with broker labels (forward servers) call

-- `DenyAsksApprover`
unfoldable pub deny_asks : Action → Explanation → ApprovalResponse
deny_asks action explanation = denied

answered : Result Bool Text → ApprovalResponse
answered (ok true) = approved
answered (ok false) = denied
answered (err e) = denied

-- What `DaemonClient::approve` answers to an id, a tool, a text and a risk.
abbrev pub Approve : Type 0
Approve = Text → Text → Text → ℕ → Result Bool Text

-- `DaemonApprover`
unfoldable pub ask_daemon : Approve → Action → Explanation → ApprovalResponse
unfolding answered
ask_daemon approve action explanation =
    answered (approve action.id action.tool explanation.plain_text explanation.risk)

flag_or_deny : Result Bool Text → Bool
flag_or_deny (ok b) = b
flag_or_deny (err e) = false

request_text : Action → Text
unfolding get as_str bytes
request_text action =
    let method = unwrap_or (and_then (get (bytes "method") action.args) as_str) (bytes "?") in
    let path = unwrap_or (and_then (get (bytes "path") action.args) as_str) [] in
    bytes "Network request: "
    ++ (method ++ (bytes " " ++ (unwrap_or action.context.host (bytes "?") ++ path)))

-- `ProxyDaemonApprover`
unfoldable pub approve_request : Approve → Action → Bool
unfolding flag_or_deny request_text
approve_request approve action =
    flag_or_deny (approve action.id action.tool (request_text action) 6)

unfoldable pub approver : Option Approve → Action → Explanation → ApprovalResponse
unfolding deny_asks ask_daemon
approver none = deny_asks
approver (some approve) = ask_daemon approve

-- `Gateway::new`, as far as it calls what is outside; without a detector.
unfoldable pub ports_with :
    (Action → Explanation → ApprovalResponse) → (ToolCall → Result Value Text) → Ports → Ports
unfolding stub_explain
ports_with approver upstream p = record p {
  explain = stub_explain;
  request_approval = approver;
  forward = upstream;
  pii_detector = none;
}

module _ (ed : Ed25519) (cel : Cel) where
  -- `Gateway::new`, the fields that do not change; they protect no files and know no kill switch.
  unfoldable pub config_of : Text → CompiledPolicy cel → EvalEnv → Config ed cel
  config_of source policy env = record {
    source = source;
    policy = policy;
    env = env;
    self_protection = record { protected_prefixes = []; kill_switch = none };
    signing_key = none;
  }

  -- The gateway in front of the upstream servers.
  unfoldable pub proxy_config : CompiledPolicy cel → EvalEnv → Config ed cel
  unfolding config_of bytes
  proxy_config policy env = config_of (bytes "guardian-mcp-proxy") policy env

  -- The gateway on its own, over the tools that are built in.
  unfoldable pub local_config : CompiledPolicy cel → EvalEnv → Config ed cel
  unfolding config_of bytes
  local_config policy env = config_of (bytes "guardian-mcp") policy env

  -- The server in front of the upstream servers, which trusts the policy's map of tools alone.
  unfoldable pub proxy_server : Text → CompiledPolicy cel → Gathered → McpServer
  unfolding new with_classifier tools
  proxy_server version policy (servers, labels) =
      with_classifier policy.policy.tools (new version (tools servers))

-- `Gateway::new`, the fields that do, on a log in memory.
abbrev pub first_state : State
first_state = record { audit = empty; counter = 0; data_protection = []; vaults = []; events = [] }

unfoldable pub proxy_ports : Option Approve → Option Broker → Gathered → Ports → Ports
unfolding ports_with approver fronted_forward
proxy_ports approve broker g p = ports_with (approver approve) (fronted_forward broker g) p

-- `DemoUpstream`
unfoldable pub demo_forward : ToolCall → Result Value Text
unfolding bytes
demo_forward call = ok (object (member (bytes "status") (string (bytes "executed")) end))

unfoldable pub local_ports : Ports → Ports
unfolding ports_with deny_asks demo_forward
local_ports p = ports_with deny_asks demo_forward p

-- `tool_spec`
unfoldable pub tool_spec : Text → Text → ToolSpec
unfolding bytes
tool_spec name description = record {
  name = name;
  description = description;
  input_schema = object (member (bytes "type") (string (bytes "object")) end);
}

-- The tools that are built in.
unfoldable pub builtin_tools : List ToolSpec
unfolding tool_spec bytes
builtin_tools =
    tool_spec (bytes "read_file") (bytes "Read a file from disk")
    ∷ tool_spec (bytes "write_file") (bytes "Create or modify a file")
    ∷ tool_spec (bytes "http_request") (bytes "Make an HTTP request")
    ∷ tool_spec (bytes "run_shell") (bytes "Run a shell command")
    ∷ tool_spec (bytes "send_email") (bytes "Send an email on your behalf")
    ∷ []

unfoldable pub builtin_classifier : Map ActionKind
unfolding bytes
builtin_classifier =
    (bytes "read_file", ActionKind.file_read)
    ∷ (bytes "write_file", ActionKind.file_write)
    ∷ (bytes "http_request", ActionKind.http_request)
    ∷ (bytes "run_shell", ActionKind.exec)
    ∷ (bytes "send_email", ActionKind.email)
    ∷ []

unfoldable pub local_server : Text → McpServer
unfolding new with_classifier builtin_tools builtin_classifier
local_server version = with_classifier builtin_classifier (new version builtin_tools)

-- What the server stands in front of, where there is no daemon.
pub data Mode : Type 0 where
  proxy : Option Broker → Gathered → Mode
  builtin : Mode

unfoldable pub ports_in : Mode → Ports → Ports
unfolding proxy_ports local_ports
ports_in (proxy broker g) p = proxy_ports none broker g p
ports_in builtin p = local_ports p

unfoldable pub config_in :
    (ed : Ed25519) (cel : Cel) → Mode → CompiledPolicy cel → EvalEnv → Config ed cel
unfolding proxy_config local_config
config_in ed cel (proxy broker g) policy env = proxy_config ed cel policy env
config_in ed cel builtin policy env = local_config ed cel policy env

unfoldable pub server_in : (ed : Ed25519) (cel : Cel) → Mode → Text → CompiledPolicy cel → McpServer
unfolding proxy_server local_server
server_in ed cel (proxy broker g) version policy = proxy_server ed cel version policy g
server_in ed cel builtin version policy = local_server version
