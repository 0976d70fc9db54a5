-- ===== src/Gateway/Mcp/Guarded.antt =====
-- The server of crates/guardian-mcp-gateway/src/lib.rs, module `mcp`, in front of its `Gateway`.
use project_guardian.Common.{
  ◌∙◌, sym, true, false, Option, some, and_then, Text, F64, bytes, ok, ◌≡◌, refl, arith,
}
use project_guardian.Core.{Value, get, as_str, is_critical}
use project_guardian.Crypto.{Ed25519}
use project_guardian.Policy.Cel.{Cel}
use project_guardian.Audit.Log.Chain.{IsIntact}
use project_guardian.Gateway.State.{
  Ports, Config, State, GatewayOutcome, allowed, blocked, upstream_error, approved,
}
use project_guardian.Gateway.Handle.{handle}
use project_guardian.Gateway.Handle.Steps.{is_blocked}
use project_guardian.Gateway.Handle.Mediation.{action_of, handle-critical}
use project_guardian.Gateway.Mcp.{
  ToolRouter, McpServer, call_for, result_of, routed, call_named, tools_call,
}

module _ (ed : Ed25519) (cel : Cel) (parse_f64 : Text → Option F64) (p : Ports) (c : Config ed cel)
    (blake3 : Text → Text) where
  -- `Gateway::route`
  unfoldable pub gateway_router : ToolRouter State
  gateway_router = record { route = λ call s. handle ed cel parse_f64 p c blake3 call s }

  module _ (from_str : Text → Option Value) (to_string : Value → Text) (server : McpServer) where
    pub result_of-blocked :
        (x : GatewayOutcome) (v : Value)
        → result_of State gateway_router from_str to_string server x ≡ ok v
        → is_blocked x ≡ false
    unfolding result_of
    result_of-blocked (allowed value) v e = refl
    result_of-blocked (upstream_error message) v e = refl
    result_of-blocked (blocked reason) v e = ground arith

    pub tools_call_lem :
        (name : Text) (params : Value) (s : State)
        → and_then (get (bytes "name") params) as_str ≡ some name
        → (tools_call State gateway_router from_str to_string server params s).0
          ≡ result_of State gateway_router from_str to_string server
              (handle ed cel parse_f64 p c blake3 (call_for server name params) s).0
    unfolding tools_call call_named routed gateway_router
    tools_call_lem name params s named = rw named refl

    -- A `tools/call` that succeeds over an intact log, of a tool whose action is of a critical category,
    -- was approved by a human, whatever the policy says.
    pub tools_call-critical :
        (name : Text) (params v : Value) (s : State)
        → and_then (get (bytes "name") params) as_str ≡ some name
        → let call = call_for server name params in
          let action = action_of ed cel parse_f64 p c blake3 call s in
          is_critical action ≡ true
          → IsIntact blake3 s.audit
          → (tools_call State gateway_router from_str to_string server params s).0 ≡ ok v
          → p.request_approval action (p.explain action) ≡ approved
    tools_call-critical name params v s named critical intact success =
        let call = call_for server name params in
        handle-critical ed cel parse_f64 p c blake3 call s critical intact (
          result_of-blocked (handle ed cel parse_f64 p c blake3 call s).0 v
            (sym (tools_call_lem name params s named) ∙ success))
