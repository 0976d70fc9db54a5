-- ===== src/Tests/Answering.antt =====
-- Concrete messages to the servers of crates/guardian-mcp-gateway/src/lib.rs, and explanations of
-- crates/guardian-checker/src/lib.rs.
use project_guardian.Common.{
  true, false, Option, some, none, and_then, unwrap_or, List, [], ◌∷◌, ◌++◌, ◌≡◌, ◌≤◌, ◌⊎◌, ◌↔◌,
  refl, arith, bytes, Text, contains, min, length, min,
}
use project_guardian.Core.{
  Value, null, string, number, Number, object, end, member, get, as_str, ActionKind, is_critical,
}
use project_guardian.Core
use project_guardian.Gateway.Handle
use project_guardian.Gateway.Handle.{
  handle, decide, mediate, conclude, consult, normalize, record_entry,
}
use project_guardian.Gateway.Call.{build_action}
use project_guardian.Gateway.Paths.{override_deny}
use project_guardian.Policy.Engine.{evaluate, rule_decision}
use project_guardian.Audit.Log.{append, empty}
use project_guardian.Audit.Log.Chain.{empty-IsIntact}
use project_guardian.Gateway.State.{tokenization_on, State, Explanation, approved}
use project_guardian.Gateway.Handle.Mediation.{action_of}
use project_guardian.Gateway.Mcp.{
  content, McpServer, ToolRouter, new, with_classifier, call_for, reply, reply_with, routed,
  tools_call,
}
use project_guardian.Gateway.Mcp.Replies.{Answers, reply-Answers, named_call}
use project_guardian.Gateway.Mcp.Guarded.{gateway_router, tools_call-critical}
use project_guardian.Gateway.Upstream.{sep, namespaced_name, route}
use project_guardian.Gateway.Upstream.Routing.{route-namespaced_name_iff}
use project_guardian.Checker.{try_explain, try_explain-bounded, read_body, max_body}
use project_guardian.Tests.Samples.{
  sample_ed, sample_cel, sample_hash, no_number, sample_ports, sample_config, sample_state,
  payment_action,
}

abbrev sample_server : McpServer
sample_server = with_classifier ((bytes "pay", ActionKind.payment) ∷ []) (new (bytes "1") [])

abbrev sample_router : ToolRouter State
sample_router = gateway_router sample_ed sample_cel no_number sample_ports sample_config sample_hash

abbrev unread : Text → Option Value
unread s = none

abbrev unprinted : Value → Text
unprinted v = []

abbrev pay_params : Value
pay_params = object (member (bytes "name") (string (bytes "pay")) end)

abbrev pay_request : Value
pay_request = object (
    member (bytes "id") (string (bytes "7")) (
      member (bytes "method") (string (bytes "tools/call"))
        (member (bytes "params") pay_params end)))

reply-Answers_example :
    let method = unwrap_or (and_then (get (bytes "method") pay_request) as_str) [] in
    let params = unwrap_or (get (bytes "params") pay_request) null in
    let t =
      reply State sample_router unread unprinted sample_server (some pay_request) sample_state in
    Answers State sample_router unread unprinted sample_server (string (bytes "7")) t.0
    × ((t.1 ≡ sample_state)
        ⊎ ((name : Text) × (method ≡ bytes "tools/call")
            × (and_then (get (bytes "name") params) as_str ≡ some name)
            × (t
                ≡ reply_with State sample_router unread unprinted sample_server
                    (string (bytes "7"))
                    (routed State sample_router unread unprinted sample_server (
                      sample_router.route
                        (named_call State sample_router unread unprinted sample_server name params)
                        sample_state)))))
unfolding get bytes
reply-Answers_example =
    reply-Answers State sample_router unread unprinted sample_server (string (bytes "7"))
      pay_request sample_state refl (ground arith)

tools_call-critical_example :
    let call = call_for sample_server (bytes "pay") pay_params in
    let action =
      action_of sample_ed sample_cel no_number sample_ports sample_config sample_hash call
        sample_state in
    sample_ports.request_approval action (sample_ports.explain action) ≡ approved
unfolding get bytes as_str is_critical normalize build_action call_for with_classifier tools_call
    gateway_router handle decide override_deny mediate conclude consult evaluate rule_decision
    record_entry append empty Handle.dispatch content tokenization_on
tools_call-critical_example =
    tools_call-critical sample_ed sample_cel no_number sample_ports sample_config sample_hash unread
      unprinted sample_server (bytes "pay") pay_params (content [] false) sample_state refl refl
      (empty-IsIntact sample_hash) refl

route-namespaced_name_iff_example :
    (route (namespaced_name (bytes "fs") (bytes "read")) (λ l. true)
      ≡ some (bytes "fs", bytes "read"))
    ↔ (contains (bytes "fs" ++ (b'_' ∷ [])) sep ≡ false)
unfolding bytes
route-namespaced_name_iff_example =
    route-namespaced_name_iff (bytes "fs") (bytes "read") (λ l. true) (ground arith) refl

abbrev second_response : Value
second_response = object (member (bytes "id") (number (Number.unsigned 2)) end)

abbrev third_response : Value
third_response = object (member (bytes "id") (number (Number.unsigned 3)) end)

abbrev post_two : Core.Action → Option (List (Option Text))
post_two a = some (some (bytes "a") ∷ some (bytes "b") ∷ [])

abbrev decode_risky : Text → Option Explanation
decode_risky s = some (record { plain_text = s; risk = 200; rationale = [] })

try_explain-bounded_example :
    (chunks : List (Option Text)) × (body : Text) × (x : Explanation) × (post_two payment_action
      ≡ some chunks)
    × (read_body [] chunks ≡ some body)
    × (length body ≤ max_body)
    × (decode_risky body ≡ some x)
    × (record { plain_text = bytes "ab"; risk = 100; rationale = [] }
        ≡ record x { risk = min x.risk 100 })
unfolding try_explain bytes
try_explain-bounded_example =
    try_explain-bounded post_two decode_risky payment_action
      (record { plain_text = bytes "ab"; risk = 100; rationale = [] }) refl
