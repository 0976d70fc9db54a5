-- ===== src/Daemon/Startup/Guards.antt =====
-- What guards a daemon that started by crates/guardian-daemon/src/main.rs, and when it starts.
use project_guardian.Common.{
  ok-injective, >>=-eq-ok, >>=-eq-ok_iff, ap, sym, ◌∙◌, Bool-cases, >>=-eq-ok_iff, ◌>>◌, true,
  false, Option, none, some, Text, Result, Result-cases, ok, err, ◌≡◌, ◌↔◌, ◌⊎◌, inl, inr, arith,
  >>=-eq-ok,
}
use project_guardian.Crypto.{Ed25519}
use project_guardian.Policy.Cel.{Cel}
use project_guardian.Policy.Engine.{CompiledPolicy, compile_toml}
use project_guardian.Audit.Log.{Database, verify, verify_chain}
use project_guardian.Audit.Log.Chain.{IsIntact, IsIntact-verify_chain, verify_chain-IsIntact}
use project_guardian.Daemon.Config.{
  Config, default_config, parent, config_path, audit_path, policy_path, load, from_path,
}
use project_guardian.Daemon.Startup.{
  Host, on_error, made, audit_tampered, StartError, policy_invalid, Started, load_policy,
  open_audit, started, start,
}

pub on_error-eq-ok_iff :
    {A E F : Type 0} (f : E → F) (r : Result A E) (a : A) → (on_error f r ≡ ok a) ↔ (r ≡ ok a)
unfolding on_error
on_error-eq-ok_iff f (ok _) a = ground arith
on_error-eq-ok_iff f (err _) a = ground arith

module _ (ed : Ed25519) (cel : Cel) (blake3 : Text → Text) (h : Host) where
  abbrev pub IsConfigured : Config → Type 0
  IsConfigured cfg =
      (h.fs.exists (config_path h.var) ≡ false) × (cfg ≡ default_config)
      ⊎ (h.fs.exists (config_path h.var) ≡ true)
        × (src : Text) × (h.fs.read_to_string (config_path h.var) ≡ ok src)
        × (h.parse_config src ≡ ok cfg)

  abbrev pub HasPolicy : Option Text → CompiledPolicy cel → Type 0
  HasPolicy none policy = compile_toml cel h.parse_policy h.default_policy ≡ ok policy
  HasPolicy (some path) policy =
      (src : Text) × (h.fs.read_to_string path ≡ ok src)
      × (compile_toml cel h.parse_policy src ≡ ok policy)

  abbrev CanMake : Option Text → Type 0
  CanMake none = Unit
  CanMake (some dir) = h.fs.create_dir_all dir ≡ true

  abbrev pub HasLog : Text → Database → Type 0
  HasLog path log = CanMake (parent path) × (h.open_log path ≡ ok log) × IsIntact blake3 log

  abbrev policy_at : Option Text → Result (CompiledPolicy cel) StartError
  policy_at = load_policy ed cel blake3 h

  abbrev audit_at : Text → Result Database StartError
  audit_at = open_audit ed cel blake3 h

  abbrev pub start_with : Config → CompiledPolicy cel → Database → Started ed cel
  start_with = started ed cel blake3 h

  abbrev pub starting : Result (Started ed cel) StartError
  starting = start ed cel blake3 h

  load_iff : (cfg : Config) → ((load h.var h.fs h.parse_config).0 ≡ ok cfg) ↔ IsConfigured cfg
  unfolding load from_path
  load_iff cfg = elim (Bool-cases (h.fs.exists (config_path h.var))) [
    | inl there ↦ elim (Result-cases (h.fs.read_to_string (config_path h.var))) [
      | inl (src, read) ↦ elim (Result-cases (h.parse_config src)) [
        | inl (c, parsed) ↦ ground (arith, there, read, parsed)
        | inr (e, failed) ↦ ground (arith, there, read, failed)
      ]
      | inr (e, failed) ↦ ground (arith, there, failed)
    ]
    | inr absent ↦ ground (arith, absent)
  ]

  -- There is one configuration.
  pub IsConfigured-unique : (c d : Config) → IsConfigured c → IsConfigured d → c ≡ d
  IsConfigured-unique c d hc hd = ok-injective (sym ((load_iff c).1 hc) ∙ (load_iff d).1 hd)

  load_policy_iff :
      (path : Option Text) (policy : CompiledPolicy cel)
      → (policy_at path ≡ ok policy) ↔ HasPolicy path policy
  unfolding load_policy
  load_policy_iff none policy = on_error-eq-ok_iff _ _ policy
  load_policy_iff (some path) policy = elim (Result-cases (h.fs.read_to_string path)) [
    | inl (src, read) ↦ ground (
      arith,
      read,
      on_error-eq-ok_iff (policy_invalid (some path)) (compile_toml cel h.parse_policy src) policy,
    )
    | inr (e, failed) ↦ ground (arith, failed)
  ]

  made_iff : (dir : Option Text) → (made h.fs dir ≡ ok tt) ↔ CanMake dir
  unfolding made
  made_iff none = ground arith
  made_iff (some dir) = ground arith

  verify_iff : (d : Database) → (verify ed blake3 none d ≡ ok tt) ↔ IsIntact blake3 d
  unfolding verify
  verify_iff d = elim (Result-cases (verify_chain blake3 d)) [
    | inl ((n, h), e) ↦ ground (arith, e, verify_chain-IsIntact blake3 e)
    | inr (x, e) ↦ (
      λ h. absurd (ground (arith, e, h)),
      λ i. absurd (ground (arith, e, IsIntact-verify_chain blake3 i)),
    )
  ]

  checked_iff :
      (path : Text) (opened log : Database)
      → ((do on_error (audit_tampered path) (verify ed blake3 none opened); ok opened) ≡ ok log)
        ↔ ((opened ≡ log) × IsIntact blake3 log)
  unfolding on_error
  checked_iff path opened log = elim (Result-cases (verify ed blake3 none opened)) [
    | inl (u, e) ↦ ground (arith, e, verify_iff opened)
    | inr (x, e) ↦ ground (arith, e, verify_iff opened)
  ]

  open_audit_iff : (path : Text) (log : Database) → (audit_at path ≡ ok log) ↔ HasLog path log
  unfolding open_audit
  open_audit_iff path log = elim (Result-cases (made h.fs (parent path))) [
    | inl (u, e) ↦ elim (Result-cases (h.open_log path)) [
      | inl (d, opened) ↦ ground (arith, e, opened, made_iff (parent path), checked_iff path d log)
      | inr (x, failed) ↦ ground (arith, e, failed)
    ]
    | inr (x, e) ↦ ground (arith, e, made_iff (parent path))
  ]

  -- The daemon starts exactly when its configuration's file is absent, which gives the defaults, or is
  -- read and parsed, the policy's file, or without one the policy that is built in, is read and compiles,
  -- and the log's directory can be made and the log opens with an intact chain.
  pub start-eq-ok_iff :
      (x : Started ed cel)
      → (starting ≡ ok x) ↔ (
          (cfg : Config) × (policy : CompiledPolicy cel) × (log : Database) × IsConfigured cfg
          × HasPolicy (policy_path h.var cfg) policy
          × HasLog (audit_path h.var cfg) log
          × (start_with cfg policy log ≡ x))
  unfolding start
  start-eq-ok_iff x = (
    λ e.
        let (cfg, l, h1) = >>=-eq-ok _ _ e in
        let (policy, q, h2) = >>=-eq-ok _ _ h1 in
        let (log, o, h3) = >>=-eq-ok _ _ h2 in
        (
          cfg,
          policy,
          log,
          (load_iff cfg).0 ((on_error-eq-ok_iff _ _ cfg).0 l),
          (load_policy_iff (policy_path h.var cfg) policy).0 q,
          (open_audit_iff (audit_path h.var cfg) log).0 o,
          ok-injective h3,
        ),
    λ (cfg, policy, log, l, q, o, e). (>>=-eq-ok_iff _ _ x).1 (
      cfg,
      (on_error-eq-ok_iff _ _ cfg).1 ((load_iff cfg).1 l),
      (>>=-eq-ok_iff _ _ x).1 (
        policy,
        (load_policy_iff (policy_path h.var cfg) policy).1 q,
        (>>=-eq-ok_iff _ _ x).1 (log, (open_audit_iff (audit_path h.var cfg) log).1 o, ap ok e),
      ),
    ),
  )
