-- ===== src/Proxy/Server/Mediation.antt =====
-- Which requests the `GuardianHandler` of crates/guardian-proxy/src/server.rs forwards.
use project_guardian.Common.{
  ◌∷◌, text_eq, lookup, remove, Option-cases, if◌then◌else◌, refl, ◌++◌, inr, inl, Bool-cases,
  bytes, Bool, true, false, Option, none, some, Text, F64, Result, ok, err, ◌≡◌, ◌↔◌, arith,
}
use project_guardian.Core.{Action, Decision, allow, ask, deny}
use project_guardian.Crypto.{Ed25519}
use project_guardian.Policy.Cel.{Cel}
use project_guardian.Policy.Engine.{EvalOutcome}
use project_guardian.Audit.Log.{Database, for_decision, append}
use project_guardian.Audit.Log.Chain.{IsIntact, appended, append-IsIntact}
use project_guardian.Broker.Store.{token_for}
use project_guardian.Broker.Capability.{CaveatViolation}
use project_guardian.Proxy.{authorization_of, outcome_of, classify}
use project_guardian.Proxy.Inspection.{
  insert_header, is_connect, WebRequest, request, Handler, RequestSignals, inspect,
}
use project_guardian.Proxy.Server.{
  caveat_check, with_credential, forward_checked, answer_of, respond, resolved, resolve_and_respond,
  kept, record_decision, decided, handle_request, prepare,
}

-- The policy allows the action, or asks and a human at hand approves.
abbrev pub clears : Option (Action → Bool) → Action → Decision → Bool
clears approver action allow = true
clears approver action (deny reason) = false
clears none action (ask reason) = false
clears (some approve) action (ask reason) = approve action

abbrev pub is_ask : Decision → Bool
is_ask (ask reason) = true
is_ask _ = false

module _ (ed : Ed25519) (cel : Cel) (parse_f64 : Text → Option F64) (h : Handler ed cel) where
  forward_checked-eq-request_iff :
      (req r : WebRequest) (authorization : Option Text) (c : Result (Unit {0}) CaveatViolation)
      → (forward_checked ed cel parse_f64 h req authorization c ≡ request r)
        ↔ ((c ≡ ok tt) × (r ≡ with_credential ed cel parse_f64 h req authorization))
  unfolding forward_checked
  forward_checked-eq-request_iff req r authorization (ok tt) = ground arith
  forward_checked-eq-request_iff req r authorization (err v) = ground arith

  -- The request as it leaves: unless it sets up a tunnel, the broker's token for the action's host, if there
  -- is one that can stand in a header, replaces every authorization that it had.
  abbrev pub departing : WebRequest → Action → WebRequest
  departing req action =
      if text_eq req.method (bytes "CONNECT") then req else (elim action.context.host [
        | none ↦ req
        | some host ↦ elim (lookup host h.broker.secrets) [
          | none ↦ req
          | some token ↦ elim (h.from_str (bytes "Bearer " ++ token)) [
            | none ↦ req
            | some value ↦ record req {
              headers = (bytes "authorization", value) ∷ remove (bytes "authorization") req.headers;
            }
          ]
        ]
      ])

  with_credential-departing :
      (req : WebRequest) (action : Action)
      → with_credential ed cel parse_f64 h req (authorization_of action h.broker)
        ≡ departing req action
  unfolding with_credential authorization_of token_for insert_header is_connect
  with_credential-departing req action = elim (Bool-cases (text_eq req.method (bytes "CONNECT"))) [
    | inl tunnel ↦ rw tunnel refl
    | inr plain ↦ rw plain (elim (Option-cases action.context.host) [
      | inl nowhere ↦ rw nowhere refl
      | inr (host, there) ↦ rw there (elim (Option-cases (lookup host h.broker.secrets)) [
        | inl unknown ↦ rw unknown refl
        | inr (token, known) ↦
            rw known (elim (Option-cases (h.from_str (bytes "Bearer " ++ token))) [
              | inl unfit ↦ rw unfit refl
              | inr (value, fit) ↦ rw fit refl
            ])
      ])
    ])
  ]

  -- What is forwarded to the host and with which credential.
  abbrev pub Sends : WebRequest → Action → EvalOutcome → WebRequest → Type 0
  Sends req action outcome r =
      (clears h.approver action outcome.decision ≡ true)
      × (caveat_check ed cel parse_f64 h action outcome.critical (is_ask outcome.decision)
            action.context.host
          ≡ ok tt)
      × (r ≡ departing req action)

  respond-eq-request_iff :
      (req r : WebRequest) (action : Action) (outcome : EvalOutcome) (fresh : Bool)
      → (respond ed cel parse_f64 h req action outcome fresh ≡ request r) ↔ (
          (outcome.decision ≡ allow)
          × (caveat_check ed cel parse_f64 h action outcome.critical fresh action.context.host
              ≡ ok tt)
          × (r ≡ with_credential ed cel parse_f64 h req (authorization_of action h.broker)))
  unfolding respond classify outcome_of answer_of
  respond-eq-request_iff req r action outcome fresh =
      ground (arith, forward_checked-eq-request_iff req r)

  resolved-eq-request_iff :
      (approver : Option (Action → Bool)) (d : Decision) (req r : WebRequest) (action : Action)
      (outcome : EvalOutcome)
      → let x = resolved ed cel parse_f64 h approver action d in
        (respond ed cel parse_f64 h req action (record outcome { decision = x.0 }) x.1 ≡ request r)
        ↔ ((clears approver action d ≡ true)
            × (caveat_check ed cel parse_f64 h action outcome.critical
                  (is_ask d)
                  action.context.host
                ≡ ok tt)
            × (r ≡ with_credential ed cel parse_f64 h req (authorization_of action h.broker)))
  unfolding resolved
  resolved-eq-request_iff (some approve) (ask reason) req r action outcome = ground (
    arith,
    respond-eq-request_iff req r action (record outcome { decision = allow }) true,
    respond-eq-request_iff req r action
        (record outcome { decision = deny (bytes "denied at review: " ++ reason) }) false,
  )
  resolved-eq-request_iff none (ask reason) req r action outcome =
      ground (
        arith,
        respond-eq-request_iff req r action (record outcome { decision = ask reason }) false,
      )
  resolved-eq-request_iff none allow req r action outcome =
      ground
        (arith, respond-eq-request_iff req r action (record outcome { decision = allow }) false)
  resolved-eq-request_iff none (deny reason) req r action outcome =
      ground (
        arith,
        respond-eq-request_iff req r action (record outcome { decision = deny reason }) false,
      )
  resolved-eq-request_iff (some approve) allow req r action outcome =
      ground
        (arith, respond-eq-request_iff req r action (record outcome { decision = allow }) false)
  resolved-eq-request_iff (some approve) (deny reason) req r action outcome =
      ground (
        arith,
        respond-eq-request_iff req r action (record outcome { decision = deny reason }) false,
      )

  module _ (blake3 : Text → Text) (req : WebRequest) (d : Database) where
    abbrev pub inspected : WebRequest × RequestSignals
    inspected = inspect ed cel parse_f64 h req

    abbrev pub judged : Action × EvalOutcome
    judged = prepare ed cel parse_f64 h inspected.0 inspected.1

    abbrev pub entry_of : Action → EvalOutcome → Text
    entry_of action outcome =
        h.encode_entry
          (for_decision action outcome.decision outcome.matched_rule none none outcome.critical)

    decided-eq-request_iff :
        (req r : WebRequest) (d' : Database) (action : Action) (outcome : EvalOutcome)
        (k : Bool × Database)
        → (decided ed cel parse_f64 h req action outcome k ≡ (request r, d'))
          ↔ ((k.0 ≡ true) × (k.1 ≡ d') × Sends req action outcome r)
    unfolding decided resolve_and_respond
    decided-eq-request_iff req r d' action outcome (true, k) = ground (
      arith,
      resolved-eq-request_iff h.approver outcome.decision req r action outcome,
      with_credential-departing req action,
    )
    decided-eq-request_iff req r d' action outcome (false, k) = ground arith

    record_decision_iff :
        (d' : Database) (action : Action) (outcome : EvalOutcome)
        → IsIntact blake3 d
        → (record_decision ed cel parse_f64 h blake3 action outcome d ≡ (true, d')) ↔ (
            (h.audit_available ≡ true)
            × (d' ≡ appended ed blake3 h.signing_key (entry_of action outcome) d))
    unfolding record_decision kept
    record_decision_iff d' action outcome i = elim (Bool-cases h.audit_available) [
      | inl on ↦
          let (r, _) = append-IsIntact ed blake3 h.signing_key (entry_of action outcome) d i in
          rw (on, r) (ground arith)
      | inr off ↦ rw off (unfold append in ground arith)
    ]

    record_and_decide_iff :
        (r : WebRequest) (d' : Database) (action : Action) (outcome : EvalOutcome)
        → IsIntact blake3 d
        → (decided ed cel parse_f64 h inspected.0 action outcome
              (record_decision ed cel parse_f64 h blake3 action outcome d)
            ≡ (request r, d'))
          ↔ ((h.audit_available ≡ true)
              × Sends inspected.0 action outcome r
              × (d' ≡ appended ed blake3 h.signing_key (entry_of action outcome) d))
    record_and_decide_iff r d' action outcome i =
        let k = record_decision ed cel parse_f64 h blake3 action outcome d in
        ground (
          arith,
          decided-eq-request_iff inspected.0 r d' action outcome k,
          record_decision_iff d' action outcome i,
        )

    -- On an intact log a request is forwarded exactly when the log is available, the policy allows its
    -- action or asks and a human at hand approves, and the caveats of its host accept it; it is then
    -- the inspected request, unless it sets up a tunnel with the broker's token for its host as its only
    -- authorization, if there is one that can stand in a header, and the log the old one with the decision
    -- appended.
    pub handle_request-forwards :
        (r : WebRequest) (d' : Database)
        → IsIntact blake3 d
        → (handle_request ed cel parse_f64 h blake3 req d ≡ (request r, d')) ↔ (
            (h.audit_available ≡ true)
            × Sends inspected.0 judged.0 judged.1 r
            × (d' ≡ appended ed blake3 h.signing_key (entry_of judged.0 judged.1) d))
    unfolding handle_request
    handle_request-forwards r d' i = record_and_decide_iff r d' judged.0 judged.1 i
