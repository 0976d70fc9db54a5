-- ===== src/Daemon/Control.antt =====
-- crates/guardian-daemon/src/lib.rs, module `server`: the requests of the control socket, what each of
-- them does, and the response. Sockets and the access rights of the socket's file are left out.
pub mod Wire
pub mod Replies
pub mod Client
pub mod RoundTrip
pub mod Routing
use mathlib.Core.Option
use project_guardian.Common.{
  ℕ, Bool, true, false, not, ◌&&◌, ◌||◌, Option, none, some, or_else, List, [], ◌∷◌, Text, bytes,
  map, F64, Result, ok, err,
}
use project_guardian.Core.{Value, string, object, end, member, ActionKind, Capability}
use project_guardian.Crypto.{Ed25519}
use project_guardian.Policy.Cel.{Cel}
use project_guardian.Audit.Log.{AuditEntry, AuditError, len, verify}
use project_guardian.Audit.Log.Tail.{tail}
use project_guardian.Gateway.Call.{ToolCall}
use project_guardian.Gateway.State.{
  protected_masked, Explanation, ApprovalResponse, approved, denied, GatewayOutcome, allowed,
  blocked, upstream_error, Ports, Config, State, add_protected, remove_last_protected, vault_stats,
  mask,
}
use project_guardian.Gateway.Handle.{handle}
use project_guardian.Daemon.Queue
use project_guardian.Daemon.Queue.{PendingApproval, World}

pub data Request : Type 0 where
  call : Text → Value → Option ActionKind → Option Capability → Request
  pending : Request
  respond : ℕ → Bool → Request
  approve : Text → Text → Text → ℕ → Request
  kill_switch : Bool → Request
  verify_audit : Request
  history : ℕ → Request
  protect : Text → Request
  unprotect vault_status : Request

pub record PendingView : Type 0 where
  pub id : ℕ
  pub action_id : Text
  pub tool : Text
  pub plain_text : Text
  pub risk : ℕ

pub record HistoryView : Type 0 where
  pub decision : Text
  pub kind : Text
  pub host : Option Text
  pub rule : Option Text
  pub reason : Option Text
  pub critical : Bool

pub data Response : Type 0 where
  outcome : Text → Value → Response
  pending : List PendingView → Response
  responded : Bool → Response
  approval : Bool → Response
  kill_switch : Bool → Response
  audit : ℕ → Bool → Response
  history : List HistoryView → Response
  vault : ℕ → ℕ → List Text → Response
  error : Text → Response

-- The gateway, the queue of approvals, and whether the file of the kill switch exists.
pub record Daemon : Type 0 where
  pub gateway : State
  pub queue : World
  pub killed : Bool

-- What is outside: what a request for approval comes to while others use the queue, and whether the
-- file of the kill switch can be written and removed.
pub record Outside : Type 0 where
  pub wait : Text → Text → Explanation → World → ApprovalResponse × World
  pub can_write : Bool
  pub can_remove : Bool

-- The response to a mediated call.
unfoldable pub outcome_response : GatewayOutcome → Response
unfolding bytes
outcome_response (allowed detail) = outcome (bytes "allowed") detail
outcome_response (blocked reason) =
    outcome (bytes "blocked") (object (member (bytes "reason") (string reason) end))
outcome_response (upstream_error e) =
    outcome (bytes "upstream_error") (object (member (bytes "error") (string e) end))

pending_view : PendingApproval → PendingView
pending_view p = record {
  id = p.id;
  action_id = p.action_id;
  tool = p.tool;
  plain_text = p.explanation.plain_text;
  risk = p.explanation.risk;
}

history_view : AuditEntry → HistoryView
history_view e = record {
  decision = e.decision;
  kind = e.action_kind;
  host = e.host;
  rule = e.matched_rule;
  reason = or_else e.decision_reason e.checker_rationale;
  critical = e.critical;
}

unfoldable pub is_approved : ApprovalResponse → Bool
is_approved approved = true
is_approved denied = false

unfoldable pub answer : Bool → ApprovalResponse
answer true = approved
answer false = denied

is_ok : {E : Type 0} → Result (Unit {0}) E → Bool
is_ok (ok _) = true
is_ok (err _) = false

-- `vault_response`
unfoldable pub vault_response : State → Response
unfolding vault_stats protected_masked
vault_response s =
    let (protected, tokens) = vault_stats s in vault protected tokens (protected_masked s)

-- `KillSwitch`: whether the file is there afterwards.
unfoldable pub switched : Outside → Bool → Bool → Bool
switched o true killed = killed || o.can_write
switched o false killed = killed && not o.can_remove

module _ (ed : Ed25519) (cel : Cel) (parse_f64 : Text → Option F64) (p : Ports) (c : Config ed cel)
    (blake3 : Text → Text) (decode : Text → Option AuditEntry) (o : Outside) where
  outcome_to : Daemon → GatewayOutcome × State → Response × Daemon
  unfolding outcome_response
  outcome_to d (x, s) = (outcome_response x, record d { gateway = s })

  approval_to : Daemon → ApprovalResponse × World → Response × Daemon
  unfolding is_approved
  approval_to d (r, w) = (approval (is_approved r), record d { queue = w })

  responded_to : Daemon → Bool × World → Response × Daemon
  responded_to d (done, w) = (responded done, record d { queue = w })

  unfoldable pub dispatch : Request → Daemon → Response × Daemon
  unfolding outcome_to approval_to responded_to pending_view history_view is_ok answer switched
      vault_response
  dispatch (call tool args kind capability) d = outcome_to d (
      handle ed cel parse_f64 p c blake3
        (record { tool = tool; args = args; kind = kind; capability = capability; session = none })
        d.gateway)
  dispatch Request.pending d = (pending (map pending_view (Queue.pending d.queue.queue)), d)
  dispatch (respond id approves) d = responded_to d (Queue.respond id (answer approves) d.queue)
  dispatch (approve action_id tool plain_text risk) d = approval_to d (
      o.wait action_id tool (record { plain_text = plain_text; risk = risk; rationale = [] })
        d.queue)
  dispatch (kill_switch engage) d =
      let killed = switched o engage d.killed in (kill_switch killed, record d { killed = killed })
  dispatch verify_audit d =
      (audit (len d.gateway.audit) (is_ok (verify ed blake3 c.signing_key d.gateway.audit)), d)
  dispatch (history limit) d = (
    history
        (map (λ (row : ℕ × AuditEntry). history_view row.1) (tail decode limit d.gateway.audit)),
    d,
  )
  dispatch (protect value) d =
      let s = add_protected value d.gateway in (vault_response s, record d { gateway = s })
  dispatch unprotect d =
      let s = (remove_last_protected d.gateway).1 in (vault_response s, record d { gateway = s })
  dispatch vault_status d = (vault_response d.gateway, d)
