-- ===== src/Gateway/Handle/Mediation.antt =====
-- What `Gateway::handle` of crates/guardian-mcp-gateway/src/lib.rs lets through to the upstream, and the
-- course of calls, records and answers that every tool call takes.
use project_guardian.Common.{
  bytes, subst, ◌+◌, Bool, true, false, Option, none, some, List, [], ◌∷◌, ◌++◌, Text, F64, ◌≡◌,
  subst, refl, arith, ap, ◌∙◌,
}
use project_guardian.Core.{Action, is_critical, deny}
use project_guardian.Crypto.{Ed25519}
use project_guardian.Policy.Cel.{Cel}
use project_guardian.Policy.Engine.{evaluate}
use project_guardian.Policy.Verdict.{evaluate-critical}
use project_guardian.Audit.Log.{AuditEntry, for_decision}
use project_guardian.Audit.Log.Chain.{IsIntact}
use project_guardian.Gateway.Call.{ToolCall}
use project_guardian.Gateway.Paths.{override_deny}
use project_guardian.Gateway.State.{approved, Ports, Event, recorded, Config, State}
use project_guardian.Gateway.Handle.{
  kept, decide, consult, record_entry, normalize, mediate, hard_denied, handle,
  self_protection_rule,
}
use project_guardian.Gateway.Handle.Steps.{is_blocked, record_entry_lem, record_entry-IsIntact}
use project_guardian.Gateway.Handle.Consulting.{permits, consulted, permits-ne-allow, through_of}
use project_guardian.Gateway.Handle.Courses.{
  Course, entry_made, entry_made_lem, entry_of, call_of, record_entry-SameVaults,
  consult-SameVaults, SameVaults, sent_lem, call_of-SameVaults, mediate_made,
}

module _ (ed : Ed25519) (cel : Cel) (parse_f64 : Text → Option F64) (p : Ports) (c : Config ed cel)
    (blake3 : Text → Text) where
  mediate_lem :
      (call : ToolCall) (action : Action) (before s : State)
      → SameVaults ed cel parse_f64 p c blake3 before s
      → IsIntact blake3 s.audit
      → let o = evaluate cel parse_f64 c.policy action c.env in
        Course ed cel parse_f64 p c blake3
          (consulted p action o.decision)
          (entry_of ed cel parse_f64 p c blake3 action none)
          (call_of ed cel parse_f64 p c blake3 call before)
          (permits p action o.decision)
          s
          (mediate ed cel parse_f64 p c blake3 call action o s)
  mediate_lem call action before s (kept_values, vaults) i =
      let o = evaluate cel parse_f64 c.policy action c.env in
      let k = consult p action o.decision s in
      let e = entry_made ed cel parse_f64 p c blake3 action o k in
      let t = (record_entry ed cel parse_f64 p c blake3 e k.state).1 in
      let (d, v) =
        record_entry-SameVaults ed cel parse_f64 p c blake3 e s k.state
          (consult-SameVaults ed cel parse_f64 p c blake3 action o.decision s) in
      subst
        (λ (entry : AuditEntry).
          Course ed cel parse_f64 p c blake3 (consulted p action o.decision) entry
            (call_of ed cel parse_f64 p c blake3 call before) (permits p action o.decision) s
            (mediate ed cel parse_f64 p c blake3 call action o s))
        (entry_made_lem ed cel parse_f64 p c blake3 action o o.decision s)
        (subst
          (λ (made : ToolCall).
            Course ed cel parse_f64 p c blake3 (consulted p action o.decision) e made
              (permits p action o.decision) s (mediate ed cel parse_f64 p c blake3 call action o s))
          (sent_lem ed cel parse_f64 p c blake3 call t
            ∙ call_of-SameVaults ed cel parse_f64 p c blake3 call before t
                (d ∙ kept_values, v ∙ vaults))
          (mediate_made ed cel parse_f64 p c blake3 call action o s i))

  hard_denied_lem :
      (call : ToolCall) (action : Action) (reason : Text) (s : State)
      → IsIntact blake3 s.audit
      → Course ed cel parse_f64 p c blake3 []
          (entry_of ed cel parse_f64 p c blake3 action (some reason))
          call
          false
          s
          (hard_denied ed cel parse_f64 p c blake3 action reason s)
  unfolding hard_denied bytes self_protection_rule
  hard_denied_lem call action reason s i =
      let e = for_decision action (deny reason) (some self_protection_rule) none none false in
      let (kept, rows, intact) = record_entry-IsIntact ed cel parse_f64 p c blake3 e s i in
      let (events, _) = record_entry_lem ed cel parse_f64 p c blake3 e s in
      record {
        events = events ∙ ap (λ kept. s.events ++ recorded e kept ∷ []) kept;
        outcome = refl;
        intact = intact;
        contents = rows;
      }

  -- The call clears where nothing hard-denies it and the policy's decision lets it through.
  abbrev pub passes : Action → Option Text → Bool
  passes action none = permits p action (evaluate cel parse_f64 c.policy action c.env).decision
  passes action (some reason) = false

  abbrev pub consulting_on : Action → Option Text → List Event
  consulting_on action none =
      consulted p action (evaluate cel parse_f64 c.policy action c.env).decision
  consulting_on action (some reason) = []

  passes-critical :
      (action : Action) (hard : Option Text)
      → is_critical action ≡ true
      → passes action hard ≡ true
      → p.request_approval action (p.explain action) ≡ approved
  passes-critical action none critical e =
      permits-ne-allow p action _ (evaluate-critical cel parse_f64 c.policy action c.env critical).0
        e
  passes-critical action (some reason) critical e = ground arith

  decide_lem :
      (call : ToolCall) (action : Action) (hard : Option Text) (before s : State)
      → SameVaults ed cel parse_f64 p c blake3 before s
      → IsIntact blake3 s.audit
      → Course ed cel parse_f64 p c blake3
          (consulting_on action hard)
          (entry_of ed cel parse_f64 p c blake3 action hard)
          (call_of ed cel parse_f64 p c blake3 call before)
          (passes action hard)
          s
          (decide ed cel parse_f64 p c blake3 call action hard s)
  unfolding decide
  decide_lem call action none before s same i = mediate_lem call action before s same i
  decide_lem call action (some reason) before s same i =
      hard_denied_lem (call_of ed cel parse_f64 p c blake3 call before) action reason s i

  module _ (call : ToolCall) (s : State) where
    abbrev pub action_of : Action
    action_of = (normalize ed cel parse_f64 p c call s).0

    -- The kill switch or the self-protection denies the action.
    abbrev pub hard_deny : Option Text
    hard_deny = override_deny p.exists p.current_dir c.self_protection action_of

    abbrev pub clears : Bool
    clears = passes action_of hard_deny

    -- On an intact log a call takes its course: whoever is consulted, then one record, which holds the
    -- decision with the checker's words and the human's answer, then, only if the call clears and the
    -- record is kept, one forwarding, of the call itself with the session's values in its arguments where
    -- values are protected; it is blocked exactly otherwise, and the log is intact again with the record
    -- as its last entry if it is kept.
    pub handle-Course :
        IsIntact blake3 s.audit
        → Course ed cel parse_f64 p c blake3
            (consulting_on action_of hard_deny)
            (entry_of ed cel parse_f64 p c blake3 action_of hard_deny)
            (call_of ed cel parse_f64 p c blake3 call s)
            clears
            s
            (handle ed cel parse_f64 p c blake3 call s)
    unfolding handle normalize
    handle-Course i =
        let s' : State = record s { counter = s.counter + 1 } in
        let r = decide_lem call action_of hard_deny s s' (refl, refl) i in
        record { events = r.events; outcome = r.outcome; intact = r.intact; contents = r.contents }

    -- On an intact log a call whose action is of a critical category is blocked unless a human
    -- approves it, whatever the policy says.
    pub handle-critical :
        is_critical action_of ≡ true
        → IsIntact blake3 s.audit
        → is_blocked (handle ed cel parse_f64 p c blake3 call s).0 ≡ false
        → p.request_approval action_of (p.explain action_of) ≡ approved
    handle-critical critical i through =
        passes-critical action_of hard_deny critical
          (through_of _ clears _ (handle-Course i).outcome through)
