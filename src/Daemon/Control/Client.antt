-- ===== src/Daemon/Control/Client.antt =====
-- crates/guardian-daemon/src/lib.rs: one line of the control socket, `DaemonClient`, and the router
-- that sends tool calls to the daemon. The reading and printing of JSON text are parameters, and so is
-- whether the daemon can be reached; `refusal` is serde's message.
use project_guardian.Common.{
  ◌>>=◌, ℕ, Bool, true, false, Option, none, some, List, [], ◌∷◌, ◌++◌, Text, bytes, trim, F64,
  Result, ok, err, ◌>>=◌, if◌then◌else◌,
}
use project_guardian.Core.{
  Value, null, string, number, Number, object, end, member, insert, ActionKind, Capability,
}
use project_guardian.Core.Wire.{kind_name, capability_name}
use project_guardian.Crypto.{Ed25519}
use project_guardian.Policy.Cel.{Cel}
use project_guardian.Audit.Log.{AuditEntry}
use project_guardian.Gateway.Call.{ToolCall}
use project_guardian.Gateway.State.{GatewayOutcome, blocked, Ports, Config}
use project_guardian.Daemon.Control.{
  Request, Response, error, Daemon, Outside, dispatch, PendingView,
}
use project_guardian.Daemon.Control.Wire.{request_of_value}
use project_guardian.Daemon.Control.Replies.{
  response_to_value, outcome_of, flag, pending_of, vault_triple,
}

text_value : Option Text → Value
text_value none = null
text_value (some s) = string s

unfoldable pub kind_value : Option ActionKind → Value
unfolding kind_name
kind_value none = null
kind_value (some k) = string (kind_name k)

unfoldable pub capability_value : Option Capability → Value
unfolding capability_name
capability_value none = null
capability_value (some c) = string (capability_name c)

-- `serde_json::to_value(call)`, with the tag.
unfoldable pub call_value : ToolCall → Value
unfolding kind_value capability_value text_value insert bytes
call_value call = object (
    insert (bytes "cmd") (string (bytes "call")) (
      member (bytes "tool") (string call.tool) (
        member (bytes "args") call.args (
          member (bytes "kind") (kind_value call.kind) (
            member (bytes "capability") (capability_value call.capability)
              (member (bytes "session") (text_value call.session) end))))))

-- The request of `approve`.
unfoldable pub approve_value : Text → Text → Text → ℕ → Value
unfolding bytes
approve_value action_id tool plain_text risk = object (
    member (bytes "cmd") (string (bytes "approve")) (
      member (bytes "action_id") (string action_id) (
        member (bytes "tool") (string tool) (
          member (bytes "plain_text") (string plain_text)
            (member (bytes "risk") (number (Number.unsigned risk)) end)))))

-- The request of `protect`.
unfoldable pub protect_value : Text → Value
unfolding bytes
protect_value value =
    object
      (member (bytes "cmd") (string (bytes "protect")) (member (bytes "value") (string value) end))

unfoldable pub is_blank : Text → Bool
is_blank [] = true
is_blank (_ ∷ _) = false

module _ (ed : Ed25519) (cel : Cel) (parse_f64 : Text → Option F64) (p : Ports) (c : Config ed cel)
    (blake3 : Text → Text) (decode : Text → Option AuditEntry) (o : Outside)
    (from_str : Text → Result Value Text) (to_string : Value → Text) (refusal : Value → Text)
    (connected : Result (Unit {0}) Text) where
  unfoldable pub known : Value → Option Request → Result Request Text
  known v none = err (refusal v)
  known v (some request) = ok request

  unfoldable pub read_request : Value → Result Request Text
  unfolding known
  read_request v = known v (request_of_value v)

  unfoldable pub perform : Result Request Text → Daemon → Response × Daemon
  perform (ok request) d = dispatch ed cel parse_f64 p c blake3 decode o request d
  perform (err e) d = (error (bytes "invalid request: " ++ e), d)

  unfoldable pub printed : Response × Daemon → Option Text × Daemon
  unfolding response_to_value
  printed (response, d) = (some (to_string (response_to_value response)), d)

  -- One round of `handle_connection`.
  unfoldable pub handle_line : Text → Daemon → Option Text × Daemon
  unfolding read_request perform printed trim is_blank
  handle_line line d =
      if is_blank (trim line)
      then (none, d)
      else printed (perform (from_str line >>= read_request) d)

  unfoldable pub read_reply : Option Text × Daemon → Result Value Text × Daemon
  read_reply (none, d) = (err (bytes "no response"), d)
  read_reply (some line, d) = (from_str line, d)

  unfoldable pub rpc : Text → Daemon → Result Value Text × Daemon
  unfolding read_reply handle_line
  rpc line d = elim connected [ err e ↦ (err e, d) | ok _ ↦ read_reply (handle_line line d) ]

  unfoldable pub replied :
      {A : Type 0} → (Value → Result A Text) → Result Value Text × Daemon → Result A Text × Daemon
  replied read (reply, d) = (reply >>= read, d)

  -- `DaemonClient::call`
  unfoldable pub call_daemon : ToolCall → Daemon → Result GatewayOutcome Text × Daemon
  unfolding replied rpc call_value outcome_of
  call_daemon call d =
      replied (λ reply. ok (outcome_of reply)) (rpc (to_string (call_value call)) d)

  -- `DaemonClient::approve`
  unfoldable pub approve_at : Text → Text → Text → ℕ → Daemon → Result Bool Text × Daemon
  unfolding replied rpc approve_value flag bytes
  approve_at action_id tool plain_text risk d =
      replied (λ reply. ok (flag (bytes "approved") reply))
        (rpc (to_string (approve_value action_id tool plain_text risk)) d)

  -- `DaemonClient::protect`
  unfoldable pub protect_at : Text → Daemon → Result (ℕ × ℕ × List Text) Text × Daemon
  unfolding replied rpc protect_value vault_triple
  protect_at value d =
      replied (λ reply. ok (vault_triple reply)) (rpc (to_string (protect_value value)) d)

  -- `DaemonClient::unprotect`
  unfoldable pub unprotect_at : Daemon → Result (ℕ × ℕ × List Text) Text × Daemon
  unfolding replied rpc vault_triple bytes
  unprotect_at d =
      replied (λ reply. ok (vault_triple reply)) (rpc (bytes "{\"cmd\":\"unprotect\"}") d)

  -- `DaemonClient::vault_status`
  unfoldable pub vault_status_at : Daemon → Result (ℕ × ℕ × List Text) Text × Daemon
  unfolding replied rpc vault_triple bytes
  vault_status_at d =
      replied (λ reply. ok (vault_triple reply)) (rpc (bytes "{\"cmd\":\"vault_status\"}") d)

  found : {A : Type 0} → Option A → Result A Text
  unfolding bytes
  found none = err (bytes "invalid data")
  found (some a) = ok a

  -- `DaemonClient::pending`
  unfoldable pub pending_at : Daemon → Result (List PendingView) Text × Daemon
  unfolding replied rpc pending_of found bytes
  pending_at d = replied (λ reply. found (pending_of reply)) (rpc (bytes "{\"cmd\":\"pending\"}") d)

  unfoldable pub routed : Result GatewayOutcome Text × Daemon → GatewayOutcome × Daemon
  unfolding bytes
  routed (ok outcome, d) = (outcome, d)
  routed (err e, d) = (blocked (bytes "daemon unreachable: " ++ e), d)

  -- `DaemonRouter::route`
  unfoldable pub route : ToolCall → Daemon → GatewayOutcome × Daemon
  unfolding routed call_daemon
  route call d = routed (call_daemon call d)
