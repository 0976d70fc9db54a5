-- ===== src/Gateway/Handle/Denial.antt =====
-- The hard overrides of `Gateway::handle` in crates/guardian-mcp-gateway/src/lib.rs at work.
use project_guardian.Common.{
  ◌+◌, Bool, Option, some, none, [], ◌∷◌, ◌++◌, Text, F64, ◌≡◌, ◌≢◌, ◌⊎◌, refl, true,
}
use project_guardian.Core.{Action}
use project_guardian.Crypto.{Ed25519}
use project_guardian.Policy.Cel.{Cel}
use project_guardian.Audit.Log.{AuditEntry}
use project_guardian.Gateway.Call.{ToolCall}
use project_guardian.Gateway.Paths.{modifies}
use project_guardian.Gateway.Paths.Resolution.{IsEngaged, IsUnder, override_deny-ne-none_iff}
use project_guardian.Gateway.State.{GatewayOutcome, blocked, Ports, recorded, Config, State}
use project_guardian.Gateway.Handle.{decide, hard_denied, handle, normalize}
use project_guardian.Gateway.Handle.Steps.{record_entry_lem}
use project_guardian.Gateway.Handle.Mediation.{action_of, hard_deny}

-- The call ends in a block, and all that it leaves is one record.
abbrev pub IsStopped : State → GatewayOutcome × State → Type 0
IsStopped s t =
    ((reason : Text) × (t.0 ≡ blocked reason))
    × ((entry : AuditEntry) × (kept : Bool) × (t.1.events ≡ s.events ++ recorded entry kept ∷ []))

module _ (ed : Ed25519) (cel : Cel) (parse_f64 : Text → Option F64) (p : Ports) (c : Config ed cel)
    (blake3 : Text → Text) where
  decide-IsStopped :
      (call : ToolCall) (action : Action) (hard : Option Text) (s : State)
      → hard ≢ none
      → IsStopped s (decide ed cel parse_f64 p c blake3 call action hard s)
  unfolding decide hard_denied
  decide-IsStopped call action none s h = absurd (h refl)
  decide-IsStopped call action (some reason) s h =
      ((reason, refl), (_, _, (record_entry_lem ed cel parse_f64 p c blake3 _ s).0))

  -- While the kill switch is engaged, and for every write or deletion under a protected path, a call is
  -- blocked, whatever the policy, and one record is all it leaves: nobody is consulted and nothing is
  -- forwarded.
  pub handle-IsStopped :
      (call : ToolCall) (s : State)
      → IsEngaged p.exists c.self_protection.kill_switch
        ⊎ (modifies (action_of ed cel parse_f64 p c blake3 call s).kind ≡ true)
          × IsUnder p.current_dir c.self_protection.protected_prefixes
              (action_of ed cel parse_f64 p c blake3 call s).context.path
      → IsStopped s (handle ed cel parse_f64 p c blake3 call s)
  unfolding handle normalize
  handle-IsStopped call s h =
      decide-IsStopped call (action_of ed cel parse_f64 p c blake3 call s)
        (hard_deny ed cel parse_f64 p c blake3 call s) (record s { counter = s.counter + 1 })
        ((override_deny-ne-none_iff p.exists p.current_dir c.self_protection
            (action_of ed cel parse_f64 p c blake3 call s)).1
          h)
