-- ===== src/Daemon/Control/Routing.antt =====
-- A tool call that the router of crates/guardian-daemon/src/lib.rs sends to the daemon.
use project_guardian.Common.{Option, none, Text, F64, Result, ok, ◌≡◌, refl, trim, false}
use project_guardian.Core.{Value}
use project_guardian.Crypto.{Ed25519}
use project_guardian.Policy.Cel.{Cel}
use project_guardian.Audit.Log.{AuditEntry}
use project_guardian.Gateway.Call.{ToolCall}
use project_guardian.Gateway.State.{GatewayOutcome, Ports, Config, State}
use project_guardian.Gateway.Handle.{handle}
use project_guardian.Daemon.Control.{Request, Daemon, Outside, dispatch, outcome_response}
use project_guardian.Daemon.Control.Replies.{response_to_value}
use project_guardian.Daemon.Control.Client.{
  known, call_value, read_request, perform, printed, is_blank, handle_line, read_reply, rpc,
  replied, call_daemon, routed, route,
}
use project_guardian.Daemon.Control.RoundTrip.{
  request_of_value-call_value, outcome_of-outcome_response,
}

module _ (ed : Ed25519) (cel : Cel) (parse_f64 : Text → Option F64) (p : Ports) (c : Config ed cel)
    (blake3 : Text → Text) (decode : Text → Option AuditEntry) (o : Outside)
    (from_str : Text → Result Value Text) (to_string : Value → Text) (refusal : Value → Text) where
  -- The gateway's outcome of the call without its session.
  abbrev pub handled : ToolCall → Daemon → GatewayOutcome × State
  handled call d = handle ed cel parse_f64 p c blake3 (record call { session = none }) d.gateway

  read_request-call_value :
      (call : ToolCall)
      → read_request ed cel parse_f64 p c blake3 decode o from_str to_string refusal
          (ok tt)
          (call_value call)
        ≡ ok (Request.call call.tool call.args call.kind call.capability)
  unfolding read_request known
  read_request-call_value call = rw (request_of_value-call_value call) refl

  performed :
      (call : ToolCall) (d : Daemon)
      → perform ed cel parse_f64 p c blake3 decode o from_str to_string refusal
          (ok tt)
          (read_request ed cel parse_f64 p c blake3 decode o from_str to_string refusal
            (ok tt)
            (call_value call))
          d
        ≡ (outcome_response (handled call d).0, record d { gateway = (handled call d).1 })
  unfolding perform dispatch
  performed call d = rw (read_request-call_value call) refl

  -- Where the daemon is reached, and the JSON texts of the call and of the reply are read back, the
  -- router's outcome is that of the daemon's gateway for the call without its session, and the
  -- daemon keeps the state that its gateway has then.
  pub route-handle :
      (call : ToolCall) (d : Daemon)
      → is_blank (trim (to_string (call_value call))) ≡ false
      → from_str (to_string (call_value call)) ≡ ok (call_value call)
      → from_str (to_string (response_to_value (outcome_response (handled call d).0)))
        ≡ ok (response_to_value (outcome_response (handled call d).0))
      → route ed cel parse_f64 p c blake3 decode o from_str to_string refusal (ok tt) call d
        ≡ ((handled call d).0, record d { gateway = (handled call d).1 })
  unfolding route routed call_daemon replied rpc read_reply handle_line printed perform read_request
      dispatch
  route-handle call d visible there back =
      rw
        (
          visible,
          there,
          request_of_value-call_value call,
          back,
          outcome_of-outcome_response (handled call d).0,
        )
        refl
