-- ===== src/Proxy/Server.antt =====
-- crates/guardian-proxy/src/server.rs: `GuardianHandler`, one request from its inspection to the request
-- that is forwarded or the response that blocks it.
pub mod Leaving
pub mod Mediation
use project_guardian.Common.{
  ℕ, Bool, true, false, not, ◌&&◌, Option, none, some, and_then, or_else, unwrap_or, List, [], ◌∷◌,
  ◌++◌, ℤ, Text, bytes, text_eq, eq_ignore_ascii_case, length, leb, Map, lookup, remove, is_utf8,
  parse_u64, F64, Result, ok, err, if◌then◌else◌,
}
use mathlib.Core.Option
use project_guardian.Core.{
  Value, boolean, number, string, Number, Members, insert, Action, Decision, allow, ask, deny,
}
use project_guardian.Crypto.{Ed25519}
use project_guardian.Policy.Cel.{Cel}
use project_guardian.Policy.Engine.{EvalEnv, EvalOutcome, CompiledPolicy, evaluate}
use project_guardian.Audit.Log.{AuditEntry, Database, AuditError, for_decision, append}
use project_guardian.Broker.Capability.{CapabilityRequest, CaveatViolation}
use project_guardian.Broker.Store.{Broker, authorize, body_leaks_secret}
use project_guardian.Proxy.{
  HttpRequest, ProxyOutcome, forward, block, to_action, tag_exfiltration, classify,
}
use project_guardian.Proxy.Inspection.{
  Answer, Handler, RequestSignals, WebRequest, audit_unavailable, header_text, insert_header,
  inspect, is_connect, request, response,
}

-- What inspection found, for the policy.
unfoldable pub signal_members : RequestSignals → Members → Members
unfolding insert
signal_members signals extra =
    let found =
      insert (bytes "body_contains_known_secret") (boolean signals.contains_known_secret) (
        insert (bytes "body_len") (number (Number.unsigned signals.len))
          (insert (bytes "body_inspected") (boolean signals.inspected) extra)) in
    if signals.is_websocket_upgrade
    then insert (bytes "upgrade") (string (bytes "websocket")) found
    else found

module _ (ed : Ed25519) (cel : Cel) (parse_f64 : Text → Option F64) (h : Handler ed cel) where
  unfoldable pub summarize : WebRequest → HttpRequest
  unfolding header_text
  summarize req = record {
    method = req.method;
    host = unwrap_or (or_else req.uri_host (header_text ed cel parse_f64 h (bytes "host") req)) [];
    path = unwrap_or req.path_and_query (bytes "/");
  }

  -- The action of a request before it is tagged.
  unfoldable pub signalled : WebRequest → RequestSignals → Action
  unfolding summarize signal_members to_action
  signalled req signals =
      let action = to_action h.to_lowercase (summarize req) in
      record action {
        context = record action.context {
          timestamp_ms = h.now_ms;
          extra = signal_members signals action.context.extra;
        };
      }

  unfoldable pub action_of : WebRequest → RequestSignals → Action
  unfolding signalled
  action_of req signals = tag_exfiltration (signalled req signals) h.env.trusted_hosts

  unfoldable pub prepare : WebRequest → RequestSignals → Action × EvalOutcome
  unfolding action_of
  prepare req signals =
      let action = action_of req signals in (action, evaluate cel parse_f64 h.policy action h.env)

  unfoldable pub caveat_check :
      Action → Bool → Bool → Option Text → Result (Unit {0}) CaveatViolation
  unfolding authorize
  caveat_check action critical fresh none = ok tt
  caveat_check action critical fresh (some host) = authorize h.broker host (record {
    host = host;
    now_ms = action.context.timestamp_ms;
    amount = none;
    critical = critical;
    freshly_approved = fresh;
  })

  -- The credential goes into a real request, not into the set-up of a tunnel.
  unfoldable pub with_credential : WebRequest → Option Text → WebRequest
  unfolding insert_header
  with_credential req authorization =
      if not (is_connect req)
      then elim (and_then authorization h.from_str) [
        | none ↦ req
        | some value ↦ record req {
          headers = insert_header (bytes "authorization") value req.headers;
        }
      ]
      else req

  forward_checked : WebRequest → Option Text → Result (Unit {0}) CaveatViolation → Answer
  unfolding with_credential
  forward_checked req authorization (ok _) = request (with_credential req authorization)
  forward_checked req authorization (err violation) =
      response (bytes "capability caveat: " ++ h.describe violation)

  answer_of : WebRequest → Action → EvalOutcome → Bool → ProxyOutcome → Answer
  unfolding forward_checked caveat_check
  answer_of req action outcome fresh (forward authorization) =
      forward_checked req authorization
        (caveat_check action outcome.critical fresh action.context.host)
  answer_of req action outcome fresh (block reason) = response reason

  unfoldable pub respond : WebRequest → Action → EvalOutcome → Bool → Answer
  unfolding answer_of
  respond req action outcome fresh =
      answer_of req action outcome fresh (classify action outcome h.broker)

  -- What the human makes of a decision: the new one, and whether it is freshly approved.
  resolved : Option (Action → Bool) → Action → Decision → Decision × Bool
  resolved (some approve) action (ask reason) =
      if approve action then (allow, true) else (deny (bytes "denied at review: " ++ reason), false)
  resolved _ action d = (d, false)

  unfoldable pub resolve_and_respond : WebRequest → Action → EvalOutcome → Answer
  unfolding resolved
  resolve_and_respond req action outcome =
      let (d, fresh) = resolved h.approver action outcome.decision in
      respond req action (record outcome { decision = d }) fresh

  kept : Database → Result (ℕ × Database) AuditError → Bool × Database
  kept d (ok (seq, d')) = (true, d')
  kept d (err e) = (false, d)

  -- `record`: whether the decision is in the log
  unfoldable pub record_decision : (Text → Text) → Action → EvalOutcome → Database → Bool × Database
  unfolding kept
  record_decision blake3 action outcome d = kept d (
      append ed blake3 h.signing_key h.audit_available
        (h.encode_entry
          (for_decision action outcome.decision outcome.matched_rule none none outcome.critical))
        d)

  decided : WebRequest → Action → EvalOutcome → Bool × Database → Answer × Database
  decided req action outcome (true, d) = (resolve_and_respond req action outcome, d)
  decided req action outcome (false, d) = (response audit_unavailable, d)

  -- `handle_request`
  unfoldable pub handle_request : (Text → Text) → WebRequest → Database → Answer × Database
  unfolding decided inspect prepare
  handle_request blake3 req d =
      let (req', signals) = inspect ed cel parse_f64 h req in
      let (action, outcome) = prepare req' signals in
      decided req' action outcome (record_decision blake3 action outcome d)
