-- ===== src/Gateway/Upstream.antt =====
-- crates/guardian-mcp-gateway/src/lib.rs, module `upstream`: the answers of an upstream server, and several
-- servers behind one proxy. The processes are left out: a server is its tools and what it answers.
pub mod Routing
pub mod Stdio
use mathlib.Core.Option
use project_guardian.Common.{
  ◌^◌, ltb, ◌==◌, ℕ, Bool, true, false, Option, none, some, and_then, unwrap_or, is_some, ℤ, List,
  [], ◌∷◌, ◌++◌, Text, bytes, Map, lookup, Result, ok, err, if◌then◌else◌,
}
use project_guardian.Core.{
  Value, null, number, Number, string, object, array, Values, nil, cons, end, member, get, as_str,
}
use project_guardian.Vault.Store.{split_at_first}
use project_guardian.Gateway.Call.{ToolCall}
use project_guardian.Gateway.Mcp.{ToolSpec}

-- `SEP`
abbrev pub sep : Text
sep = b'_' ∷ b'_' ∷ []

unfoldable pub namespaced_name : Text → Text → Text
namespaced_name [] tool = tool
namespaced_name (c ∷ label) tool = (c ∷ label) ++ (sep ++ tool)

unfoldable pub fall_back : Text → Bool → Option (Text × Text)
fall_back name true = some ([], name)
fall_back name false = none

unfoldable pub route_to : (Text → Bool) → Text → Option (Text × Text) → Option (Text × Text)
unfolding fall_back
route_to known name none = fall_back name (known [])
route_to known name (some (label, tool)) =
    if known label then some (label, tool) else fall_back name (known [])

-- `name.split_once(SEP)`, and the server whose label it is.
unfoldable pub route : Text → (Text → Bool) → Option (Text × Text)
unfolding route_to split_at_first
route name known = route_to known name (split_at_first sep name)

-- The number of a reply, as `as_i64` reads it.
unfoldable pub as_i64 : Value → Option ℤ
as_i64 (number (Number.unsigned n)) = if ltb n (2 ^ 63) then some (ℤ.pos n) else none
as_i64 (number (Number.signed z)) = some z
as_i64 _ = none

unfoldable pub same_int : ℤ → ℤ → Bool
same_int (ℤ.pos m) (ℤ.pos n) = m == n
same_int (ℤ.negsuc m) (ℤ.negsuc n) = m == n
same_int _ _ = false

-- A line that is the response to the request with this id.
unfoldable pub is_response : ℤ → Value → Bool
unfolding get as_i64 same_int bytes
is_response id v = elim (and_then (get (bytes "id") v) as_i64) [
  | none ↦ false
  | some i ↦ same_int i id
]

unfoldable pub response_of : Value → Result Value Text
unfolding get as_str bytes
response_of v = elim (get (bytes "error") v) [
  | some e ↦ err (unwrap_or (and_then (get (bytes "message") e) as_str) (bytes "upstream error"))
  | none ↦ ok (unwrap_or (get (bytes "result") v) null)
]

answers_to : ℤ → Option Value → Bool
unfolding is_response
answers_to id none = false
answers_to id (some v) = is_response id v

-- The loop of `request`, over the lines that the server still prints, each as the JSON that it is, if it
-- is one: the answer, and the lines that are left.
unfoldable pub await_response : ℤ → List (Option Value) → Result Value Text × List (Option Value)
unfolding answers_to response_of bytes
await_response id [] = (err (bytes "upstream closed the connection"), [])
await_response id (none ∷ lines) = await_response id lines
await_response id (some v ∷ lines) =
    let later = await_response id lines in
    if is_response id v then (response_of v, lines) else later

unfoldable pub tool_of : Value → Option ToolSpec
unfolding get as_str bytes
tool_of t =
    Option.map
      (λ (name : Text). record {
        name = name;
        description = unwrap_or (and_then (get (bytes "description") t) as_str) [];
        input_schema =
            unwrap_or (get (bytes "inputSchema") t)
              (object (member (bytes "type") (string (bytes "object")) end));
      })
      (and_then (get (bytes "name") t) as_str)

unfoldable pub tools_of : Values → List ToolSpec
unfolding tool_of
tools_of nil = []
tools_of (cons t ts) =
    let rest = tools_of ts in elim (tool_of t) [ none ↦ rest | some spec ↦ spec ∷ rest ]

unfoldable pub tools_in : Option Value → List ToolSpec
unfolding tools_of
tools_in (some (array ts)) = tools_of ts
tools_in _ = []

unfoldable pub parse_tools : Value → List ToolSpec
unfolding get tools_in bytes
parse_tools result = tools_in (get (bytes "tools") result)

-- `McpStdioUpstream`: its tools, and what it answers to a call.
pub record Server : Type 0 where
  pub tools : List ToolSpec
  pub forward : ToolCall → Result Value Text

-- `MultiUpstream::add`: whether the label was free
unfoldable pub add : Text → Server → Map Server → Bool × Map Server
unfolding lookup
add label server servers =
    if is_some (lookup label servers) then (false, servers) else (true, (label, server) ∷ servers)

namespaced : Text → List ToolSpec → List ToolSpec
unfolding namespaced_name
namespaced label [] = []
namespaced label (t ∷ ts) = record t { name = namespaced_name label t.name } ∷ namespaced label ts

-- `MultiUpstream::tools`
unfoldable pub tools : Map Server → List ToolSpec
unfolding namespaced
tools [] = []
tools ((label, server) ∷ servers) = namespaced label server.tools ++ tools servers

unfoldable pub unrouted : ToolCall → Text
unfolding bytes
unrouted call = bytes "no upstream server routes tool '" ++ (call.tool ++ bytes "'")

unfoldable pub forward_to : Map Server → ToolCall → Option (Text × Text) → Result Value Text
unfolding lookup unrouted bytes
forward_to servers call none = err (unrouted call)
forward_to servers call (some (label, tool)) = elim (lookup label servers) [
  | none ↦ err (bytes "no upstream server '" ++ (label ++ bytes "'"))
  | some server ↦
      server.forward
        (record { tool = tool; args = call.args; kind = none; capability = none; session = none })
]

-- `MultiUpstream::forward`
unfoldable pub forward : Map Server → ToolCall → Result Value Text
unfolding route forward_to lookup
forward servers call =
    forward_to servers call (route call.tool (λ (label : Text). is_some (lookup label servers)))
