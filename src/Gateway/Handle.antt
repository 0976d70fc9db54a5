-- ===== src/Gateway/Handle.antt =====
-- crates/guardian-mcp-gateway/src/lib.rs: `Gateway::handle`, one tool call from arrival to outcome. A
-- call runs as one step here: calls that wait for the approver or the upstream at the same time are
-- not interleaved.
pub mod Steps
pub mod Consulting
pub mod Courses
pub mod Mediation
pub mod Denial
pub mod Isolation
use project_guardian.Common.{
  ℕ, ◌+◌, Bool, true, false, not, Option, none, some, unwrap_or, List, [], ◌∷◌, ◌++◌, Text, F64,
  bytes, Result, ok, err, if◌then◌else◌,
}
use mathlib.Core.Option
use project_guardian.Core.{Value, Action, Decision, allow, ask, deny}
use project_guardian.Crypto.{Ed25519}
use project_guardian.Policy.Cel.{Cel}
use project_guardian.Policy.Engine.{EvalOutcome, evaluate}
use project_guardian.Audit.Log.{AuditEntry, Database, AuditError, for_decision, append}
use project_guardian.Vault.Store.{DataVault, learn}
use project_guardian.Vault.Json.{tokenize_json, detokenize_json}
use project_guardian.Gateway.Call.{ToolCall, build_action}
use project_guardian.Gateway.Paths.{override_deny}
use project_guardian.Gateway.State.{
  Explanation, ApprovalResponse, approved, denied, GatewayOutcome, allowed, upstream_error, blocked,
  Ports, Event, explained, asked, recorded, forwarded, Config, State, tokenization_on, with_vault,
}

unfoldable pub self_protection_rule : Text
self_protection_rule = bytes "self-protection"

unfoldable pub audit_reason : Text
audit_reason = bytes "Guardian audit log unavailable; action blocked (fail-closed)."

unfoldable pub denied_reason : Text
denied_reason = bytes "Denied by the user."

abbrev log_event : Event → State → State
log_event e s = record s { events = s.events ++ e ∷ [] }

-- What the decision leads to before anything is recorded.
pub record Consultation : Type 0 where
  pub proceed : Bool
  pub explanation : Option Explanation
  pub user_response : Option Text
  pub state : State

answer_text : ApprovalResponse → Text
answer_text approved = bytes "approved"
answer_text denied = bytes "denied"

is_approved : ApprovalResponse → Bool
is_approved approved = true
is_approved denied = false

-- Only `ask` reaches the checker and the approver.
unfoldable pub consult : Ports → Action → Decision → State → Consultation
unfolding answer_text is_approved
consult p action allow s = record {
  proceed = true;
  explanation = none;
  user_response = none;
  state = s;
}
consult p action (deny reason) s = record {
  proceed = false;
  explanation = none;
  user_response = none;
  state = s;
}
consult p action (ask reason) s =
    let explanation = p.explain action in
    let response = p.request_approval action explanation in
    record {
      proceed = is_approved response;
      explanation = some explanation;
      user_response = some (answer_text response);
      state = log_event (asked action response) (log_event (explained action) s);
    }

-- Why a call that does not proceed is blocked.
unfoldable pub refusal : Decision → Text
refusal (deny reason) = reason
refusal _ = denied_reason

-- What the agent gets of an upstream's answer, when nothing is tokenized.
plain_answer : Result Value Text → GatewayOutcome
plain_answer (ok value) = allowed value
plain_answer (err e) = upstream_error e

module _ (ed : Ed25519) (cel : Cel) (parse_f64 : Text → Option F64) (p : Ports)
    (c : Config ed cel) where
  kept : State → AuditEntry → Result (ℕ × Database) AuditError → Bool × State
  kept s e (ok (seq, d)) = (true, record s { audit = d; events = s.events ++ recorded e true ∷ [] })
  kept s e (err x) = (false, log_event (recorded e false) s)

  -- `Gateway::record`: whether the entry is in the log. The hash function is a parameter.
  unfoldable pub record_entry : (Text → Text) → AuditEntry → State → Bool × State
  unfolding kept
  record_entry blake3 e s =
      kept s e (append ed blake3 c.signing_key p.audit_available (p.encode_entry e) s.audit)

  -- `Gateway::normalize`
  unfoldable pub normalize : ToolCall → State → Action × State
  normalize call s = (
    build_action call c.source (bytes "act-" ++ p.decimal s.counter) p.now_ms,
    record s { counter = s.counter + 1 },
  )

  learn_found : Text → List Text → State → State
  learn_found session [] s = s
  learn_found session (found ∷ more) s =
      learn_found session more (with_vault session (λ (v : DataVault). (tt {0}, learn found v)) s).1

  detect_in : Option (Text → List Text) → Text → Value → State → State
  unfolding learn_found
  detect_in none session value s = s
  detect_in (some detector) session value s = learn_found session (detector (p.render value)) s

  -- The answer as the agent gets it: detected spans are learned, then the session's values are
  -- replaced by tokens.
  unfoldable pub redact : Text → Result Value Text → State → GatewayOutcome × State
  unfolding detect_in
  redact session (err e) s = (upstream_error e, s)
  redact session (ok value) s =
      let s' = detect_in p.pii_detector session value s in
      let (redacted, s'') =
        with_vault session (tokenize_json (p.entropy session) (p.address session) value) s' in
      (allowed redacted, s'')

  -- The call with its tokens restored, as the upstream gets it.
  unfoldable pub restored : ToolCall → State → ToolCall × State
  restored call s =
      let (args, s') =
        with_vault (unwrap_or call.session []) (λ (v : DataVault). (detokenize_json v call.args, v))
          s in
      (record call { args = args }, s')

  send_plain : ToolCall → State → GatewayOutcome × State
  unfolding plain_answer
  send_plain call s = (plain_answer (p.forward call), log_event (forwarded call) s)

  send_restored : Text → ToolCall × State → GatewayOutcome × State
  send_restored session (call, s) = redact session (p.forward call) (log_event (forwarded call) s)

  -- An allowed or approved call goes to the upstream.
  unfoldable pub dispatch : ToolCall → State → GatewayOutcome × State
  unfolding send_plain send_restored
  dispatch call s =
      if not (tokenization_on p s)
      then send_plain call s
      else send_restored (unwrap_or call.session []) (restored call s)

  -- The end of `handle`, once the decision is recorded or not.
  unfoldable pub conclude : ToolCall → Decision → Bool → Bool × State → GatewayOutcome × State
  conclude call d true (true, s) = dispatch call s
  conclude call d true (false, s) = (blocked audit_reason, s)
  conclude call d false (_, s) = (blocked (refusal d), s)

  -- The rest of `handle` for an action that is not hard-denied.
  unfoldable pub mediate :
      (Text → Text) → ToolCall → Action → EvalOutcome → State → GatewayOutcome × State
  mediate blake3 call action o s =
      let k = consult p action o.decision s in
      conclude call o.decision k.proceed (
        record_entry blake3
          (for_decision action o.decision o.matched_rule
            (Option.map (λ (e : Explanation). e.rationale) k.explanation) k.user_response
            o.critical)
          k.state)

  hard_denied : (Text → Text) → Action → Text → State → GatewayOutcome × State
  hard_denied blake3 action reason s = (
    blocked reason,
    (record_entry blake3
        (for_decision action (deny reason) (some self_protection_rule) none none false) s).1,
  )

  -- The hard overrides come before the policy.
  unfoldable pub decide :
      (Text → Text) → ToolCall → Action → Option Text → State → GatewayOutcome × State
  unfolding hard_denied
  decide blake3 call action (some reason) s = hard_denied blake3 action reason s
  decide blake3 call action none s =
      mediate blake3 call action (evaluate cel parse_f64 c.policy action c.env) s

  -- `Gateway::handle`
  unfoldable pub handle : (Text → Text) → ToolCall → State → GatewayOutcome × State
  handle blake3 call s =
      let (action, s') = normalize call s in
      decide blake3 call action (override_deny p.exists p.current_dir c.self_protection action) s'
