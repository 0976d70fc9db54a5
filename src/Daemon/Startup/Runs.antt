-- ===== src/Daemon/Startup/Runs.antt =====
-- The calls that a daemon handles after it started by crates/guardian-daemon/src/main.rs. What its gateway
-- calls, such as the approver and the file system, may differ from call to call.
use project_guardian.Common.{
  ap, true, false, Option, none, some, List, [], ◌∷◌, Text, F64, Result, ok, ◌≡◌, ◌⊎◌, inl, inr,
  Exists, subst, sym,
}
use project_guardian.Core.{Action, is_critical}
use project_guardian.Crypto.{Ed25519}
use project_guardian.Policy.Cel.{Cel}
use project_guardian.Audit.Log.Chain.{IsIntact}
use project_guardian.Gateway.Call.{ToolCall}
use project_guardian.Gateway.Paths.Resolution.{IsEngaged, IsUnder}
use project_guardian.Gateway.Paths.{SelfProtection, modifies, normalize_abs, path_starts_with}
use project_guardian.Gateway.State.{GatewayOutcome, State, Ports, approved}
use project_guardian.Gateway.Handle.{handle}
use project_guardian.Gateway.Handle.Steps.{is_blocked}
use project_guardian.Gateway.Handle.Mediation.{action_of, handle-Course, handle-critical}
use project_guardian.Gateway.Handle.Denial.{IsStopped, handle-IsStopped}
use project_guardian.Daemon.Config.{
  Config, guardian_dir, config_path, kill_switch_path, audit_path, socket_path, policy_path,
}
use project_guardian.Daemon.Startup.{Host, StartError, pushed, Started, protected, started}
use project_guardian.Daemon.Startup.Guards.{
  IsConfigured-unique, IsConfigured, IsConfigured-unique, starting, start-eq-ok_iff,
}

some-injective : {f g : Text} → some f ≡ some g → f ≡ g
some-injective e = cc

Exists-pushed :
    (P : Text → Type 0) (o : Option Text) (file : Text)
    → o ≡ some file
    → P file
    → Exists P (pushed o)
unfolding pushed
Exists-pushed P none file e h = cc
Exists-pushed P (some f) file e h = inl (subst P (sym (some-injective e)) h)

module _ (ed : Ed25519) (cel : Cel) (parse_f64 : Text → Option F64) (blake3 : Text → Text) where
  -- The state after some calls.
  abbrev pub after :
      project_guardian.Gateway.State.Config ed cel → List (Ports × ToolCall) → State → State
  after c [] s = s
  after c ((p, call) ∷ calls) s = after c calls (handle ed cel parse_f64 p c blake3 call s).1

  after-IsIntact :
      (c : project_guardian.Gateway.State.Config ed cel) (calls : List (Ports × ToolCall))
      (s : State)
      → IsIntact blake3 s.audit
      → IsIntact blake3 (after c calls s).audit
  after-IsIntact c [] s i = i
  after-IsIntact c ((p, call) ∷ calls) s i =
      after-IsIntact c calls (handle ed cel parse_f64 p c blake3 call s).1
        (handle-Course ed cel parse_f64 p c blake3 call s i).intact

  module _ (h : Host) where
    -- What belongs to the daemon: its directory, its configuration, the kill switch, the log, the socket,
    -- and the policy's file if it has one.
    abbrev pub IsOwn : Config → Text → Type 0
    IsOwn cfg file =
        (file ≡ guardian_dir h.var)
        ⊎ (file ≡ config_path h.var)
        ⊎ (file ≡ kill_switch_path h.var)
        ⊎ (file ≡ audit_path h.var cfg)
        ⊎ (file ≡ socket_path h.var h.temp_dir cfg)
        ⊎ (policy_path h.var cfg ≡ some file)

    abbrev pub begins : Result (Started ed cel) StartError
    begins = starting ed cel blake3 h

    abbrev pub reached : Started ed cel → List (Ports × ToolCall) → State
    reached x calls = after x.gateway calls x.state

    abbrev pub mediated : Started ed cel → Ports → ToolCall → State → GatewayOutcome × State
    mediated x p call s = handle ed cel parse_f64 p x.gateway blake3 call s

    abbrev pub acting : Started ed cel → Ports → ToolCall → State → Action
    acting x p call s = action_of ed cel parse_f64 p x.gateway blake3 call s

    -- After any calls to a daemon that started, a call whose action is of a critical category gets past
    -- the gateway only if it was approved, whatever the configuration and the policy.
    pub start-critical :
        (x : Started ed cel) (calls : List (Ports × ToolCall)) (p : Ports) (call : ToolCall)
        → begins ≡ ok x
        → is_critical (acting x p call (reached x calls)) ≡ true
        → is_blocked (mediated x p call (reached x calls)).0 ≡ false
        → p.request_approval
            (acting x p call (reached x calls))
            (p.explain (acting x p call (reached x calls)))
          ≡ approved
    unfolding started
    start-critical x calls p call e critical through =
        let (cfg, policy, log, _, _, (_, _, intact), same) =
          (start-eq-ok_iff ed cel blake3 h x).0 e in
        handle-critical ed cel parse_f64 p x.gateway blake3 call (after x.gateway calls x.state)
          critical
          (after-IsIntact x.gateway calls x.state
            (subst (λ (y : Started ed cel). IsIntact blake3 y.state.audit) same intact))
          through

    IsOwn-protected :
        (cfg : Config) (file : Text) (P : Text → Type 0)
        → IsOwn cfg file
        → P file
        → Exists P (protected ed cel blake3 h cfg)
    unfolding protected
    IsOwn-protected cfg file P (inl e) h = inl (subst P e h)
    IsOwn-protected cfg file P (inr (inl e)) h = inr (inl (subst P e h))
    IsOwn-protected cfg file P (inr (inr (inl e))) h = inr (inr (inl (subst P e h)))
    IsOwn-protected cfg file P (inr (inr (inr (inl e)))) h = inr (inr (inr (inl (subst P e h))))
    IsOwn-protected cfg file P (inr (inr (inr (inr (inl e))))) h =
        inr (inr (inr (inr (inl (subst P e h)))))
    IsOwn-protected cfg file P (inr (inr (inr (inr (inr e))))) h =
        inr (inr (inr (inr (inr (Exists-pushed P _ file e h)))))

    abbrev protection : Config → SelfProtection
    protection cfg = record {
      protected_prefixes = protected ed cel blake3 h cfg;
      kill_switch = some (kill_switch_path h.var);
    }

    start-protection :
        (x : Started ed cel) (cfg : Config)
        → begins ≡ ok x
        → IsConfigured ed cel blake3 h cfg
        → x.gateway.self_protection ≡ protection cfg
    unfolding started
    start-protection x cfg e configured =
        let (c, policy, log, configured', _, _, same) = (start-eq-ok_iff ed cel blake3 h x).0 e in
        subst (λ (y : Started ed cel). y.gateway.self_protection ≡ protection cfg) same
          (ap protection (IsConfigured-unique ed cel blake3 h c cfg configured' configured))

    IsUnder-some :
        (current_dir path : Text) (prefixes : List Text) (o : Option Text)
        → o ≡ some path
        → Exists
            (λ q.
              path_starts_with (normalize_abs current_dir path) (normalize_abs current_dir q)
              ≡ true)
            prefixes
        → IsUnder current_dir prefixes o
    IsUnder-some current_dir path prefixes o e h = rw e h

    -- A daemon that started with a configuration blocks, in every state and whatever its policy, each call
    -- that writes or deletes a file under one of its own files, both normalized, and each call while the
    -- file of its kill switch exists; one record is all that such a call leaves.
    pub start-IsStopped :
        (x : Started ed cel) (cfg : Config) (file path : Text) (p : Ports) (call : ToolCall)
        (s : State)
        → begins ≡ ok x
        → IsConfigured ed cel blake3 h cfg
        → IsOwn cfg file
        → (p.exists (kill_switch_path h.var) ≡ true)
          ⊎ (modifies (acting x p call s).kind ≡ true)
            × ((acting x p call s).context.path ≡ some path)
            × (path_starts_with
                  (normalize_abs p.current_dir path)
                  (normalize_abs p.current_dir file)
                ≡ true)
        → IsStopped s (mediated x p call s)
    unfolding started
    start-IsStopped x cfg file path p call s e configured own reason =
        let same = start-protection x cfg e configured in
        let path' = (action_of ed cel parse_f64 p x.gateway blake3 call s).context.path in
        handle-IsStopped ed cel parse_f64 p x.gateway blake3 call s (elim reason [
          | inl engaged ↦ inl (
              subst (λ (sp : SelfProtection). IsEngaged p.exists sp.kill_switch) (sym same) engaged)
          | inr (modifying, at, under) ↦ inr (
            modifying,
            subst (λ (sp : SelfProtection). IsUnder p.current_dir sp.protected_prefixes path')
                (sym same)
                (IsUnder-some p.current_dir path (protection cfg).protected_prefixes path' at (
                  IsOwn-protected cfg file
                    (λ q.
                      path_starts_with (normalize_abs p.current_dir path)
                        (normalize_abs p.current_dir q)
                      ≡ true)
                    own under)),
          )
        ])
