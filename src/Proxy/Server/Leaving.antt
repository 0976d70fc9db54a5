-- ===== src/Proxy/Server/Leaving.antt =====
-- Requests that carry a held secret through the `GuardianHandler` of
-- crates/guardian-proxy/src/server.rs.
use project_guardian.Common.{
  sym, ◌∙◌, Bool, true, false, Option, none, some, Text, F64, ◌≡◌, ◌≢◌, refl, arith, ◌++◌, ◌≤◌,
  length, inl, bytes, is_utf8, text_eq,
}
use project_guardian.Core.{
  Number, number, end, insert, Action, Decision, allow, ask, deny, is_critical, find-insert, find,
  boolean, Members, string, as_bool,
}
use project_guardian.Crypto.{Ed25519}
use project_guardian.Policy.Cel.{Cel}
use project_guardian.Policy.Verdict.{evaluate-critical}
use project_guardian.Audit.Log.{Database}
use project_guardian.Audit.Log.Chain.{IsIntact}
use project_guardian.Broker.Store.{token_for}
use project_guardian.Broker.Store.Leaks.{body_leaks_secret-append}
use project_guardian.Proxy.{carries_secret, to_trusted, secret_flag}
use project_guardian.Proxy.Egress.{to_trusted-tag_exfiltration, tagged-critical}
use project_guardian.Proxy.Inspection.{
  WebRequest, request, Handler, RequestSignals, inspect, inspect_body, bufferable,
}
use project_guardian.Proxy.Server.{handle_request, prepare, signal_members, signalled, action_of}
use project_guardian.Proxy.Server.Mediation.{clears, handle_request-forwards}

-- A decision that does not allow lets a request through by a human's approval alone.
clears-approved :
    (approver : Option (Action → Bool)) (action : Action) (d : Decision)
    → d ≢ allow
    → clears approver action d ≡ true
    → (approve : Action → Bool) × (approver ≡ some approve) × (approve action ≡ true)
clears-approved approver action allow h e = absurd (h refl)
clears-approved none action (ask reason) h e = ground arith
clears-approved (some approve) action (ask reason) h e = (approve, refl, e)
clears-approved approver action (deny reason) h e = ground arith

find-signal_members :
    (signals : RequestSignals) (extra : Members)
    → find secret_flag (signal_members signals extra) ≡ some (boolean signals.contains_known_secret)
unfolding signal_members secret_flag bytes text_eq
find-signal_members signals extra =
    let found =
      insert (bytes "body_len") (number (Number.unsigned signals.len))
        (insert (bytes "body_inspected") (boolean signals.inspected) extra) in
    let flagged = insert secret_flag (boolean signals.contains_known_secret) found in
    ground (
      arith,
      find-insert secret_flag secret_flag (boolean signals.contains_known_secret) found,
      find-insert (bytes "upgrade") secret_flag (string (bytes "websocket")) flagged,
    )

module _ (ed : Ed25519) (cel : Cel) (parse_f64 : Text → Option F64) (h : Handler ed cel) where
  carries_secret-signalled :
      (req : WebRequest) (signals : RequestSignals)
      → carries_secret (signalled ed cel parse_f64 h req signals) ≡ signals.contains_known_secret
  unfolding carries_secret signalled as_bool
  carries_secret-signalled req signals = rw (find-signal_members signals end) refl

  inspect-leak :
      (req : WebRequest) (target token before after : Text)
      → token_for h.broker target ≡ some token
      → 8 ≤ length token
      → bufferable ed cel parse_f64 h req ≡ true
      → req.body ≡ some (before ++ (token ++ after))
      → is_utf8 (before ++ (token ++ after)) ≡ true
      → (inspect ed cel parse_f64 h req).1.contains_known_secret ≡ true
  unfolding inspect inspect_body
  inspect-leak req target token before after held long small readable valid =
      rw (small, readable, valid)
        (body_leaks_secret-append h.broker target token before after held long)

  action_of-critical :
      (req : WebRequest) (signals : RequestSignals)
      → signals.contains_known_secret ≡ true
      → let action = action_of ed cel parse_f64 h req signals in
        to_trusted action h.env.trusted_hosts ≡ false → is_critical action ≡ true
  unfolding action_of
  action_of-critical req signals leak away =
      let action = signalled ed cel parse_f64 h req signals in
      tagged-critical cel parse_f64 h.policy h.env h.broker action h.env.trusted_hosts
        (carries_secret-signalled req signals ∙ leak)
        (sym (to_trusted-tag_exfiltration action h.env.trusted_hosts) ∙ away)
        (inl (unfold signalled in refl))

  module _ (blake3 : Text → Text) (req : WebRequest) (d : Database) where
    abbrev pub judged_action : Action
    judged_action =
        let (req', signals) = inspect ed cel parse_f64 h req in
        (prepare ed cel parse_f64 h req' signals).0

    -- On an intact log a request whose body is inspected, is text and has a held token of at least 8
    -- bytes anywhere in it, and whose host is not trusted, is forwarded only if there is a human at
    -- hand who approves it, whatever the policy says.
    pub handle_request-leak :
        (r : WebRequest) (d' : Database) (target token before after : Text)
        → token_for h.broker target ≡ some token
        → 8 ≤ length token
        → bufferable ed cel parse_f64 h req ≡ true
        → req.body ≡ some (before ++ (token ++ after))
        → is_utf8 (before ++ (token ++ after)) ≡ true
        → to_trusted judged_action h.env.trusted_hosts ≡ false
        → IsIntact blake3 d
        → handle_request ed cel parse_f64 h blake3 req d ≡ (request r, d')
        → (approve : Action → Bool) × (h.approver ≡ some approve) × (approve judged_action ≡ true)
    unfolding prepare
    handle_request-leak r d' target token before after held long small readable valid away i e =
        let (req', signals) = inspect ed cel parse_f64 h req in
        let leak = inspect-leak req target token before after held long small readable valid in
        let critical = action_of-critical req' signals leak away in
        let (_, (cleared, _, _), _) =
          (handle_request-forwards ed cel parse_f64 h blake3 req d r d' i).0 e in
        clears-approved h.approver _ _
          (unfold prepare in
            (evaluate-critical cel parse_f64 h.policy judged_action h.env critical).0)
          cleared
