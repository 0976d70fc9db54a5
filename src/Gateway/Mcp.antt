-- ===== src/Gateway/Mcp.antt =====
-- crates/guardian-mcp-gateway/src/lib.rs, module `mcp`: the server that answers JSON-RPC lines and sends
-- tool calls to a router. The state of the router is any type; the reading and printing of JSON texts
-- are parameters. Standard input and output are left out.
pub mod Replies
pub mod Guarded
use project_guardian.Common.{
  Bool, true, false, Option, none, some, and_then, unwrap_or, ℤ, List, [], ◌∷◌, ◌++◌, Text, bytes,
  text_eq, Map, lookup, Result, ok, err, if◌then◌else◌,
}
use project_guardian.Core.{
  Value, null, boolean, string, array, object, Values, nil, cons, end, member, get, as_str,
  ActionKind,
}
use project_guardian.Core.Wire.{integer}
use project_guardian.Gateway.Call.{ToolCall}
use project_guardian.Gateway.State.{GatewayOutcome, allowed, blocked, upstream_error}

pub record ToolSpec : Type 0 where
  pub name : Text
  pub description : Text
  pub input_schema : Value

-- The trait `ToolRouter`, over the state that a call changes.
pub record ToolRouter (W : Type 0) : Type 0 where
  pub route : ToolCall → W → GatewayOutcome × W

pub record McpServer : Type 0 where
  pub tools : List ToolSpec
  pub classifier : Map ActionKind
  pub name : Text
  pub version : Text

-- `McpServer::new`; the version is that of the package.
unfoldable pub new : Text → List ToolSpec → McpServer
unfolding bytes
new version tools = record {
  tools = tools;
  classifier = [];
  name = bytes "guardian";
  version = version;
}

unfoldable pub with_classifier : Map ActionKind → McpServer → McpServer
with_classifier classifier server = record server { classifier = classifier }

unfoldable pub spec_value : ToolSpec → Value
unfolding bytes
spec_value t = object (
    member (bytes "name") (string t.name) (
      member (bytes "description") (string t.description)
        (member (bytes "inputSchema") t.input_schema end)))

unfoldable pub specs_value : List ToolSpec → Values
unfolding spec_value
specs_value [] = nil
specs_value (t ∷ ts) = cons (spec_value t) (specs_value ts)

-- An error's code and message.
abbrev pub Failure : Type 0
Failure = ℤ × Text

abbrev pub parse_error : ℤ
parse_error = ℤ.negsuc 32699

abbrev pub invalid_params : ℤ
invalid_params = ℤ.negsuc 32601

abbrev pub method_not_found : ℤ
method_not_found = ℤ.negsuc 32600

abbrev pub blocked_code : ℤ
blocked_code = ℤ.negsuc 31999

unfoldable pub success_value : Value → Value → Value
unfolding bytes
success_value id result = object (
    member (bytes "jsonrpc") (string (bytes "2.0"))
      (member (bytes "id") id (member (bytes "result") result end)))

unfoldable pub error_value : Value → ℤ → Text → Value
unfolding bytes integer
error_value id code message = object (
    member (bytes "jsonrpc") (string (bytes "2.0")) (
      member (bytes "id") id (
        member (bytes "error")
          (object
            (member (bytes "code") (integer code) (member (bytes "message") (string message) end)))
          end)))

-- The result of a tool call, as a text.
unfoldable pub content : Text → Bool → Value
unfolding bytes
content text failed = object (
    member (bytes "content")
      (array (
        cons
          (object (
            member (bytes "type") (string (bytes "text"))
              (member (bytes "text") (string text) end)))
          nil))
      (member (bytes "isError") (boolean failed) end))

unfoldable pub initialize : McpServer → Value → Value
unfolding get as_str bytes
initialize server params = object (
    member (bytes "protocolVersion")
      (string
        (unwrap_or (and_then (get (bytes "protocolVersion") params) as_str) (bytes "2024-11-05")))
      (member (bytes "capabilities") (object (member (bytes "tools") (object end) end)) (
        member (bytes "serverInfo")
          (object (
            member (bytes "name") (string server.name)
              (member (bytes "version") (string server.version) end)))
          end)))

-- The kind of a tool is that of the trusted map, never one inferred from its name.
unfoldable pub kind_for : McpServer → Text → ActionKind
unfolding lookup
kind_for server name = unwrap_or (lookup name server.classifier) ActionKind.other

unfoldable pub call_for : McpServer → Text → Value → ToolCall
unfolding kind_for get bytes
call_for server name params = record {
  tool = name;
  args = unwrap_or (get (bytes "arguments") params) null;
  kind = some (kind_for server name);
  capability = none;
  session = none;
}

module _ (W : Type 0) (router : ToolRouter W) (from_str : Text → Option Value)
    (to_string : Value → Text) (server : McpServer) where
  unfoldable pub result_of : GatewayOutcome → Result Value Failure
  unfolding content bytes
  result_of (allowed value) = ok (content (to_string value) false)
  result_of (upstream_error e) = ok (content (bytes "tool error: " ++ e) true)
  result_of (blocked reason) = err (blocked_code, bytes "Blocked by Guardian: " ++ reason)

  unfoldable pub routed : GatewayOutcome × W → Result Value Failure × W
  unfolding result_of
  routed (outcome, w) = (result_of outcome, w)

  unfoldable pub call_named : Option Text → Value → W → Result Value Failure × W
  unfolding routed call_for bytes
  call_named none params w = (err (invalid_params, bytes "missing tool name"), w)
  call_named (some name) params w = routed (router.route (call_for server name params) w)

  unfoldable pub tools_call : Value → W → Result Value Failure × W
  unfolding call_named get as_str bytes
  tools_call params w = call_named (and_then (get (bytes "name") params) as_str) params w

  unfoldable pub dispatch : Text → Value → W → Result Value Failure × W
  unfolding initialize specs_value tools_call text_eq bytes
  dispatch method params w =
      if text_eq method (bytes "initialize")
      then (ok (initialize server params), w)
      else if text_eq method (bytes "tools/list")
      then (ok (object (member (bytes "tools") (array (specs_value server.tools)) end)), w)
      else if text_eq method (bytes "ping")
      then (ok (object end), w)
      else if text_eq method (bytes "tools/call")
      then tools_call params w
      else (err (method_not_found, bytes "method not found: " ++ method), w)

  unfoldable pub reply_with : Value → Result Value Failure × W → Option Value × W
  unfolding success_value error_value
  reply_with id (ok result, w) = (some (success_value id result), w)
  reply_with id (err (code, message), w) = (some (error_value id code message), w)

  -- A message without an id, or with `null` for it, is a notification.
  unfoldable pub reply_to : Option Value → Value → W → Option Value × W
  unfolding reply_with dispatch get as_str bytes
  reply_to none request w = (none, w)
  reply_to (some null) request w = (none, w)
  reply_to (some id) request w = reply_with id (
      dispatch (unwrap_or (and_then (get (bytes "method") request) as_str) [])
        (unwrap_or (get (bytes "params") request) null) w)

  unfoldable pub reply : Option Value → W → Option Value × W
  unfolding reply_to error_value get bytes
  reply none w = (some (error_value null parse_error (bytes "parse error")), w)
  reply (some request) w = reply_to (get (bytes "id") request) request w

  unfoldable pub printed : Option Value × W → Option Text × W
  printed (none, w) = (none, w)
  printed (some v, w) = (some (to_string v), w)

  -- `handle_line`
  unfoldable pub handle_line : Text → W → Option Text × W
  unfolding reply printed
  handle_line line w = printed (reply (from_str line) w)
