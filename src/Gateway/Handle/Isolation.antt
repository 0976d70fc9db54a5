-- ===== src/Gateway/Handle/Isolation.antt =====
-- The vaults of sessions in crates/guardian-mcp-gateway/src/lib.rs: a call touches that of its own session
-- alone.
use project_guardian.Common.{
  ap₂, Bool, true, false, Option, none, some, unwrap_or, List, [], ◌∷◌, ◌++◌, ◌+◌, ℕ, Text, F64,
  Result, ok, err, lookup, lookup-put, text_eq_iff, ◌≡◌, ◌≢◌, refl, ◌∙◌, arith, Bool-cases, inl,
  inr,
}
use project_guardian.Core.{Value, Action, Decision, allow, ask, deny}
use project_guardian.Crypto.{Ed25519}
use project_guardian.Policy.Cel.{Cel}
use project_guardian.Policy.Engine.{evaluate}
use project_guardian.Audit.Log.{AuditEntry, Database, AuditError, append}
use project_guardian.Vault.Store.{new, DataVault}
use project_guardian.Gateway.Call.{ToolCall}
use project_guardian.Gateway.State.{
  seeded, Ports, Config, State, tokenization_on, session_vault, with_vault,
}
use project_guardian.Gateway.Handle.{
  forwarded, consult, record_entry, kept, learn_found, detect_in, redact, restored, send_plain,
  send_restored, dispatch, conclude, mediate, hard_denied, decide, normalize, handle,
}

-- The other session has the vault that it had, and the protected values are the same.
record SameVault (other : Text) (s s' : State) : Type 0 where
  vault : lookup other s'.vaults ≡ lookup other s.vaults
  protected : s'.data_protection ≡ s.data_protection

SameVault-trans :
    {other : Text} {s t u : State} → SameVault other s t → SameVault other t u → SameVault other s u
SameVault-trans a b = record { vault = b.vault ∙ a.vault; protected = b.protected ∙ a.protected }

SameVault-with_vault {ℓ} :
    {T : Type ℓ} (other session : Text) (f : DataVault → T × DataVault) (s : State)
    → session ≢ other
    → SameVault other s (with_vault session f s).1
unfolding with_vault
SameVault-with_vault other session f s h = record {
  vault = ground (
    arith,
    lookup-put session other (f (session_vault session s)).1 s.vaults,
    text_eq_iff session other,
  );
  protected = refl;
}

session_vault-SameVault :
    {other : Text} {s s' : State}
    → SameVault other s s'
    → session_vault other s' ≡ session_vault other s
unfolding session_vault
session_vault-SameVault same =
    ap₂
      (λ (o : Option DataVault) (values : List Text). elim o [
        | some v ↦ v
        | none ↦ seeded values new
      ])
      same.vault same.protected

module _ (ed : Ed25519) (cel : Cel) (parse_f64 : Text → Option F64) (p : Ports) (c : Config ed cel)
    (blake3 : Text → Text) (other : Text) where
  SameVault-learn_found :
      (session : Text) (found : List Text) (s : State)
      → session ≢ other
      → SameVault other s (learn_found ed cel parse_f64 p c session found s)
  unfolding learn_found
  SameVault-learn_found session [] s h = record { vault = refl; protected = refl }
  SameVault-learn_found session (f ∷ more) s h =
      SameVault-trans (SameVault-with_vault other session _ s h)
        (SameVault-learn_found session more _ h)

  SameVault-detect_in :
      (detector : Option (Text → List Text)) (session : Text) (value : Value) (s : State)
      → session ≢ other
      → SameVault other s (detect_in ed cel parse_f64 p c detector session value s)
  unfolding detect_in
  SameVault-detect_in none session value s h = record { vault = refl; protected = refl }
  SameVault-detect_in (some d) session value s h =
      SameVault-learn_found session (d (p.render value)) s h

  SameVault-redact :
      (session : Text) (r : Result Value Text) (s : State)
      → session ≢ other
      → SameVault other s (redact ed cel parse_f64 p c session r s).1
  unfolding redact
  SameVault-redact session (err e) s h = record { vault = refl; protected = refl }
  SameVault-redact session (ok value) s h =
      SameVault-trans (SameVault-detect_in p.pii_detector session value s h)
        (SameVault-with_vault other session _ _ h)

  SameVault-dispatch :
      (call : ToolCall) (s : State)
      → unwrap_or call.session [] ≢ other
      → SameVault other s (dispatch ed cel parse_f64 p c call s).1
  unfolding dispatch send_plain send_restored restored
  SameVault-dispatch call s h = elim (Bool-cases (tokenization_on p s)) [
    | inr off ↦ rw off (record { vault = refl; protected = refl })
    | inl on ↦
        let a = SameVault-with_vault other (unwrap_or call.session []) _ s h in
        let b =
          SameVault-redact (unwrap_or call.session [])
            (p.forward (restored ed cel parse_f64 p c call s).0)
            (record (restored ed cel parse_f64 p c call s).1 {
              events =
                  (restored ed cel parse_f64 p c call s).1.events
                  ++ forwarded (restored ed cel parse_f64 p c call s).0 ∷ [];
            })
            h in
        rw on (record { vault = b.vault ∙ a.vault; protected = b.protected ∙ a.protected })
  ]

  SameVault-kept :
      (e : AuditEntry) (r : Result (ℕ × Database) AuditError) (s : State)
      → SameVault other s (kept ed cel parse_f64 p c s e r).1
  unfolding kept
  SameVault-kept e (ok (seq, d)) s = record { vault = refl; protected = refl }
  SameVault-kept e (err x) s = record { vault = refl; protected = refl }

  SameVault-record_entry :
      (e : AuditEntry) (s : State)
      → SameVault other s (record_entry ed cel parse_f64 p c blake3 e s).1
  unfolding record_entry
  SameVault-record_entry e s =
      SameVault-kept e (append ed blake3 c.signing_key p.audit_available (p.encode_entry e) s.audit)
        s

  SameVault-consult :
      (action : Action) (d : Decision) (s : State) → SameVault other s (consult p action d s).state
  unfolding consult
  SameVault-consult action allow s = record { vault = refl; protected = refl }
  SameVault-consult action (ask r) s = record { vault = refl; protected = refl }
  SameVault-consult action (deny r) s = record { vault = refl; protected = refl }

  SameVault-conclude :
      (call : ToolCall) (d : Decision) (through kept : Bool) (s : State)
      → unwrap_or call.session [] ≢ other
      → SameVault other s (conclude ed cel parse_f64 p c call d through (kept, s)).1
  unfolding conclude
  SameVault-conclude call d true true s h = SameVault-dispatch call s h
  SameVault-conclude call d true false s h = record { vault = refl; protected = refl }
  SameVault-conclude call d false kept s h = record { vault = refl; protected = refl }

  SameVault-decide :
      (call : ToolCall) (action : Action) (hard : Option Text) (s : State)
      → unwrap_or call.session [] ≢ other
      → SameVault other s (decide ed cel parse_f64 p c blake3 call action hard s).1
  unfolding decide hard_denied mediate
  SameVault-decide call action (some reason) s h = SameVault-record_entry _ s
  SameVault-decide call action none s h =
      let o = evaluate cel parse_f64 c.policy action c.env in
      SameVault-trans (SameVault-consult action o.decision s) (
        SameVault-trans (SameVault-record_entry _ (consult p action o.decision s).state)
          (SameVault-conclude call o.decision (consult p action o.decision s).proceed _ _ h))

  -- A call of one session leaves the vault of every other session as it was.
  pub handle-session_vault :
      (call : ToolCall) (s : State)
      → unwrap_or call.session [] ≢ other
      → session_vault other (handle ed cel parse_f64 p c blake3 call s).1 ≡ session_vault other s
  unfolding handle normalize
  handle-session_vault call s h =
      let moved : State = record s { counter = s.counter + 1 } in
      let same = SameVault-decide call _ _ moved h in
      session_vault-SameVault (record { vault = same.vault; protected = same.protected })
