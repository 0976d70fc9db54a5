-- ===== src/Gateway/Handle/Steps.antt =====
-- What the steps of `Gateway::handle` in crates/guardian-mcp-gateway/src/lib.rs do to the events, the log
-- and the outcome.
use project_guardian.Common.{
  Bool, true, false, not, Option, none, some, unwrap_or, List, [], ◌∷◌, ◌++◌, Text, F64, Result, ok,
  err, if◌then◌else◌, ◌≡◌, ◌⊎◌, inl, inr, refl, ap, ◌∙◌, sym, Bool-cases, Result-cases,
}
use mathlib.Core.List.{append-nil}
use project_guardian.Core.{Value}
use project_guardian.Crypto.{Ed25519}
use project_guardian.Policy.Cel.{Cel}
use project_guardian.Audit.Log.{AuditEntry, append}
use project_guardian.Audit.Log.Chain.{contents, contents-append, IsIntact, append-IsIntact}
use project_guardian.Vault.Store.{DataVault}
use project_guardian.Gateway.Call.{ToolCall}
use project_guardian.Gateway.State.{
  GatewayOutcome, blocked, Ports, recorded, forwarded, Config, State, tokenization_on, with_vault,
}
use project_guardian.Gateway.Handle.{
  send_plain, send_restored, plain_answer, record_entry, kept, learn_found, detect_in, redact,
  restored, dispatch,
}

abbrev pub is_blocked : GatewayOutcome → Bool
is_blocked (blocked reason) = true
is_blocked _ = false

-- The steps that touch vaults alone.
pub record SameTrail (s s' : State) : Type 0 where
  pub audit : s'.audit ≡ s.audit
  pub events : s'.events ≡ s.events

pub SameTrail-with_vault {ℓ} :
    {T : Type ℓ} (session : Text) (f : DataVault → T × DataVault) (s : State)
    → SameTrail s (with_vault session f s).1
unfolding with_vault
SameTrail-with_vault session f s = record { audit = refl; events = refl }

SameTrail-trans : {s t u : State} → SameTrail s t → SameTrail t u → SameTrail s u
SameTrail-trans a b = record { audit = b.audit ∙ a.audit; events = b.events ∙ a.events }

module _ (ed : Ed25519) (cel : Cel) (parse_f64 : Text → Option F64) (p : Ports)
    (c : Config ed cel) where
  SameTrail-learn_found :
      (session : Text) (found : List Text) (s : State)
      → SameTrail s (learn_found ed cel parse_f64 p c session found s)
  unfolding learn_found
  SameTrail-learn_found session [] s = record { audit = refl; events = refl }
  SameTrail-learn_found session (f ∷ more) s =
      SameTrail-trans (SameTrail-with_vault session _ s) (SameTrail-learn_found session more _)

  SameTrail-detect_in :
      (detector : Option (Text → List Text)) (session : Text) (value : Value) (s : State)
      → SameTrail s (detect_in ed cel parse_f64 p c detector session value s)
  unfolding detect_in
  SameTrail-detect_in none session value s = record { audit = refl; events = refl }
  SameTrail-detect_in (some d) session value s =
      SameTrail-learn_found session (d (p.render value)) s

  -- The answer of the upstream is not a block, and is redacted without a trace.
  redact_lem :
      (session : Text) (r : Result Value Text) (s : State)
      → let t = redact ed cel parse_f64 p c session r s in
        (is_blocked t.0 ≡ false) × SameTrail s t.1
  unfolding redact
  redact_lem session (err e) s = (refl, record { audit = refl; events = refl })
  redact_lem session (ok value) s = (
    refl,
    SameTrail-trans (SameTrail-detect_in p.pii_detector session value s)
        (SameTrail-with_vault session _ _),
  )

  -- The call as the upstream gets it.
  abbrev pub sent : ToolCall → State → ToolCall
  sent call s = if not (tokenization_on p s) then call else (restored ed cel parse_f64 p c call s).0

  send_plain_lem :
      (call : ToolCall) (s : State)
      → let t = send_plain ed cel parse_f64 p c call s in
        (is_blocked t.0 ≡ false)
        × (t.1.audit ≡ s.audit)
        × (t.1.events ≡ s.events ++ forwarded call ∷ [])
  unfolding send_plain plain_answer
  send_plain_lem call s = elim (Result-cases (p.forward call)) [
    | inl (v, e) ↦ (rw e, refl, refl)
    | inr (x, e) ↦ (rw e, refl, refl)
  ]

  send_restored_lem :
      (session : Text) (call : ToolCall) (s : State)
      → let t = send_restored ed cel parse_f64 p c session (call, s) in
        (is_blocked t.0 ≡ false)
        × (t.1.audit ≡ s.audit)
        × (t.1.events ≡ s.events ++ forwarded call ∷ [])
  unfolding send_restored
  send_restored_lem session call s =
      let s' : State = record s { events = s.events ++ forwarded call ∷ [] } in
      let (b, same) = redact_lem session (p.forward call) s' in (b, same.audit, same.events)

  SameTrail-restored :
      (call : ToolCall) (s : State) → SameTrail s (restored ed cel parse_f64 p c call s).1
  unfolding restored
  SameTrail-restored call s = SameTrail-with_vault (unwrap_or call.session []) _ s

  -- A dispatched call is forwarded, once and last, and is not blocked; the log stays.
  pub dispatch_lem :
      (call : ToolCall) (s : State)
      → let t = dispatch ed cel parse_f64 p c call s in
        (is_blocked t.0 ≡ false)
        × (t.1.audit ≡ s.audit)
        × (t.1.events ≡ s.events ++ forwarded (sent call s) ∷ [])
  unfolding dispatch
  dispatch_lem call s = elim (Bool-cases (tokenization_on p s)) [
    | inr off ↦ rw off (send_plain_lem call s)
    | inl on ↦
        let same = SameTrail-restored call s in
        let (b, a, e) =
          send_restored_lem (unwrap_or call.session []) (restored ed cel parse_f64 p c call s).0
            (restored ed cel parse_f64 p c call s).1 in
        rw on (
          b,
          a ∙ same.audit,
          e
              ∙ ap (λ events. events ++ forwarded (restored ed cel parse_f64 p c call s).0 ∷ [])
                  same.events,
        )
  ]

  -- An entry is recorded once, whether it is kept or not; if not, the log stays.
  pub record_entry_lem :
      (blake3 : Text → Text) (e : AuditEntry) (s : State)
      → let t = record_entry ed cel parse_f64 p c blake3 e s in
        (t.1.events ≡ s.events ++ recorded e t.0 ∷ []) × ((t.0 ≡ true) ⊎ (t.1.audit ≡ s.audit))
  unfolding record_entry kept
  record_entry_lem blake3 e s =
      elim (Result-cases
        (append ed blake3 c.signing_key p.audit_available (p.encode_entry e) s.audit)) [
          | inl (v, r) ↦ rw r (refl, inl refl)
          | inr (x, r) ↦ rw r (refl, inr refl)
        ]

  -- On an intact log an entry is kept if the database can be used: it is then the last, and the log
  -- is intact again.
  pub record_entry-IsIntact :
      (blake3 : Text → Text) (e : AuditEntry) (s : State)
      → IsIntact blake3 s.audit
      → let t = record_entry ed cel parse_f64 p c blake3 e s in
        (t.0 ≡ p.audit_available)
        × (contents t.1.audit.rows
            ≡ contents s.audit.rows ++ (if p.audit_available then p.encode_entry e ∷ [] else []))
        × IsIntact blake3 t.1.audit
  unfolding record_entry kept
  record_entry-IsIntact blake3 e s i = elim (Bool-cases p.audit_available) [
    | inl on ↦
        let (r, j) = append-IsIntact ed blake3 c.signing_key (p.encode_entry e) s.audit i in
        rw (on, r) (refl, contents-append s.audit.rows _, j)
    | inr off ↦ rw off (unfold append in (refl, sym (append-nil (contents s.audit.rows)), i))
  ]
