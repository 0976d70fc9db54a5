-- ===== src/Gateway/Handle/Courses.antt =====
-- The course of a tool call through `Gateway::handle` of crates/guardian-mcp-gateway/src/lib.rs: what it
-- adds to the log and to the events, the entry, and the call that is forwarded.
use project_guardian.Common.{
  bytes, unwrap_or, Bool-cases, Result-cases, inl, inr, ap₂, subst, Bool, true, false, not, ◌&&◌,
  Option, none, some, List, [], ◌∷◌, ◌++◌, Text, F64, if◌then◌else◌, ◌≡◌, ap₂, subst, refl, ap, ◌∙◌,
  sym,
}
use mathlib.Core.List.{append-nil}
use mathlib.Core.Option
use project_guardian.Core.{Action, Decision, allow, ask, deny}
use project_guardian.Crypto.{Ed25519}
use project_guardian.Policy.Cel.{Cel}
use project_guardian.Policy.Engine.{EvalOutcome, evaluate}
use project_guardian.Audit.Log.{append, AuditEntry, Database, for_decision}
use project_guardian.Audit.Log.Chain.{IsIntact, contents}
use project_guardian.Vault.Json.{detokenize_json}
use project_guardian.Gateway.Call.{ToolCall}
use project_guardian.Gateway.State.{
  ApprovalResponse, denied, tokenization_on, session_vault, with_vault, Explanation, approved,
  GatewayOutcome, Ports, Event, recorded, forwarded, Config, State,
}
use project_guardian.Gateway.Handle.{
  Consultation, answer_text, restored, kept, consult, record_entry, conclude, mediate,
}
use project_guardian.Gateway.Handle.Steps.{
  is_blocked, sent, dispatch_lem, record_entry_lem, record_entry-IsIntact,
}
use project_guardian.Gateway.Handle.Consulting.{permits, consulted, regroup, consult_lem}

module _ (ed : Ed25519) (cel : Cel) (parse_f64 : Text → Option F64) (p : Ports) (c : Config ed cel)
    (blake3 : Text → Text) where
  -- The events that a call adds: who is consulted, then the record, and last the forwarding, if the
  -- call is let through and the record is kept.
  pub record Course (consulting : List Event) (entry : AuditEntry) (call : ToolCall)
      (through : Bool) (s : State) (t : GatewayOutcome × State) : Type 0 where
    pub events :
        t.1.events
        ≡ s.events
          ++ (consulting
              ++ recorded entry p.audit_available
                ∷ (if through && p.audit_available then forwarded call ∷ [] else []))
    pub outcome : is_blocked t.0 ≡ not (through && p.audit_available)
    pub intact : IsIntact blake3 t.1.audit
    pub contents :
        contents t.1.audit.rows
        ≡ contents s.audit.rows ++ (if p.audit_available then p.encode_entry entry ∷ [] else [])

  conclude_lem :
      (call : ToolCall) (d : Decision) (through kept : Bool) (s : State)
      → let t = conclude ed cel parse_f64 p c call d through (kept, s) in
        (is_blocked t.0 ≡ not (through && kept))
        × (t.1.audit ≡ s.audit)
        × (t.1.events
            ≡ s.events
              ++ (if through && kept
                  then forwarded (sent ed cel parse_f64 p c call s) ∷ []
                  else []))
  unfolding conclude
  conclude_lem call d true true s = dispatch_lem ed cel parse_f64 p c call s
  conclude_lem call d true false s = (refl, refl, sym (append-nil s.events))
  conclude_lem call d false kept s = (refl, refl, sym (append-nil s.events))

  abbrev pub entry_made : Action → EvalOutcome → Consultation → AuditEntry
  entry_made action o k =
      for_decision action o.decision o.matched_rule
        (Option.map (λ (x : Explanation). x.rationale) k.explanation) k.user_response o.critical

  pub mediate_made :
      (call : ToolCall) (action : Action) (o : EvalOutcome) (s : State)
      → IsIntact blake3 s.audit
      → let k = consult p action o.decision s in
        let e = entry_made action o k in
        Course
          (consulted p action o.decision)
          e
          (sent ed cel parse_f64 p c call (record_entry ed cel parse_f64 p c blake3 e k.state).1)
          (permits p action o.decision)
          s
          (mediate ed cel parse_f64 p c blake3 call action o s)
  unfolding mediate
  mediate_made call action o s i =
      let k = consult p action o.decision s in
      let (through, audit, events) = consult_lem p action o.decision s in
      let e : AuditEntry = entry_made action o k in
      let r = record_entry ed cel parse_f64 p c blake3 e k.state in
      let (kept, rows, intact) =
        record_entry-IsIntact ed cel parse_f64 p c blake3 e k.state
          (subst (IsIntact blake3) (sym audit) i) in
      let (recorded_events, _) = record_entry_lem ed cel parse_f64 p c blake3 e k.state in
      let call' = sent ed cel parse_f64 p c call r.1 in
      let (b, a, f) = conclude_lem call o.decision k.proceed r.0 r.1 in
      record {
        events =
            f
            ∙ ap₂ (λ events through. events ++ (if through then forwarded call' ∷ [] else []))
                (recorded_events ∙ ap₂ (λ events kept. events ++ recorded e kept ∷ []) events kept)
                (ap₂ (λ x y. x && y) through kept)
            ∙ regroup s.events (consulted p action o.decision) (recorded e p.audit_available) _;
        outcome = b ∙ ap₂ (λ x y. not (x && y)) through kept;
        intact = subst (IsIntact blake3) (sym a) intact;
        contents =
            ap (λ (d : Database). contents d.rows) a
            ∙ rows
            ∙ ap
                (λ (d : Database).
                  contents d.rows ++ (if p.audit_available then p.encode_entry e ∷ [] else []))
                audit;
      }

  -- What the entry holds of the human's answer and of the checker's words: only a review has them.
  abbrev pub rationale_of : Action → Decision → Option Text
  rationale_of action (ask reason) = some (p.explain action).rationale
  rationale_of action _ = none

  abbrev pub response_text : ApprovalResponse → Text
  response_text approved = bytes "approved"
  response_text denied = bytes "denied"

  abbrev pub response_of : Action → Decision → Option Text
  response_of action (ask reason) =
      some (response_text (p.request_approval action (p.explain action)))
  response_of action _ = none

  -- The entry of an action: the denial of the hard override, or the policy's outcome.
  abbrev pub entry_of : Action → Option Text → AuditEntry
  entry_of action (some reason) =
      for_decision action (deny reason) (some (bytes "self-protection")) none none false
  entry_of action none =
      let o = evaluate cel parse_f64 c.policy action c.env in
      for_decision action o.decision o.matched_rule (rationale_of action o.decision)
        (response_of action o.decision) o.critical

  -- The call that is forwarded: with the session's values in its arguments, where values are protected.
  abbrev pub call_of : ToolCall → State → ToolCall
  call_of call s = record call {
    args =
        if tokenization_on p s
        then detokenize_json (session_vault (unwrap_or call.session []) s) call.args
        else call.args;
  }

  answer_text_lem : (r : ApprovalResponse) → answer_text r ≡ response_text r
  unfolding answer_text
  answer_text_lem approved = refl
  answer_text_lem denied = refl

  pub entry_made_lem :
      (action : Action) (o : EvalOutcome) (d : Decision) (s : State)
      → for_decision action d o.matched_rule
          (Option.map (λ (x : Explanation). x.rationale) (consult p action d s).explanation)
          (consult p action d s).user_response
          o.critical
        ≡ for_decision action d o.matched_rule
            (rationale_of action d)
            (response_of action d)
            o.critical
  unfolding consult
  entry_made_lem action o allow s = refl
  entry_made_lem action o (deny reason) s = refl
  entry_made_lem action o (ask reason) s =
      ap
        (λ t.
          for_decision action (ask reason) o.matched_rule (some (p.explain action).rationale)
            (some t) o.critical)
        (answer_text_lem (p.request_approval action (p.explain action)))

  -- The parts of the state that the call's arguments depend on.
  abbrev pub SameVaults : State → State → Type 0
  SameVaults s t = (t.data_protection ≡ s.data_protection) × (t.vaults ≡ s.vaults)

  pub sent_lem : (call : ToolCall) (s : State) → sent ed cel parse_f64 p c call s ≡ call_of call s
  unfolding restored with_vault
  sent_lem call s = elim (Bool-cases (tokenization_on p s)) [
    | inl on ↦ rw on refl
    | inr off ↦ rw off refl
  ]

  pub call_of-SameVaults :
      (call : ToolCall) (s t : State) → SameVaults s t → call_of call t ≡ call_of call s
  unfolding tokenization_on session_vault
  call_of-SameVaults call s t (kept_values, vaults) = rw (kept_values, vaults) refl

  pub consult-SameVaults :
      (action : Action) (d : Decision) (s : State) → SameVaults s (consult p action d s).state
  unfolding consult
  consult-SameVaults action allow s = (refl, refl)
  consult-SameVaults action (deny reason) s = (refl, refl)
  consult-SameVaults action (ask reason) s = (refl, refl)

  pub record_entry-SameVaults :
      (e : AuditEntry) (s t : State)
      → SameVaults s t
      → SameVaults s (record_entry ed cel parse_f64 p c blake3 e t).1
  unfolding record_entry kept
  record_entry-SameVaults e s t (kept_values, vaults) =
      elim (Result-cases
        (append ed blake3 c.signing_key p.audit_available (p.encode_entry e) t.audit)) [
          | inl (v, r) ↦ rw r (kept_values, vaults)
          | inr (x, r) ↦ rw r (kept_values, vaults)
        ]
