-- ===== src/Daemon/Startup.antt =====
-- crates/guardian-daemon/src/main.rs: how the daemon starts. A panic is an error value; logging is left
-- out. The file system is looked at as it is before the start; making the log's directory and opening
-- the log are parameters.
pub mod Guards
pub mod Runs
use project_guardian.Common.{
  ℕ, Bool, true, false, Option, none, some, unwrap_or, List, [], ◌∷◌, ◌++◌, Text, bytes, F64,
  Result, ok, err, ◌>>=◌, ◌>>◌, if◌then◌else◌,
}
use project_guardian.Crypto.{Ed25519}
use project_guardian.Policy.Schema.{Policy, PolicyError}
use project_guardian.Policy.Cel.{Cel}
use project_guardian.Policy.Engine.{CompiledPolicy, compile_toml}
use project_guardian.Audit.Log.{AuditError, Database, verify}
use project_guardian.Gateway.State
use project_guardian.Gateway.State.{State}
use project_guardian.Daemon.Config.{
  Config, ConfigError, FileSystem, parent, guardian_dir, config_path, kill_switch_path, audit_path,
  socket_path, policy_path, load, approval_timeout, notifications_enabled, checker_endpoint,
}

pub data StartError : Type 0 where
  config : ConfigError → StartError
  policy_unreadable : Text → Text → StartError
  policy_invalid : Option Text → PolicyError → StartError
  audit_directory : Text → StartError
  audit_unopened : Text → Text → StartError
  audit_tampered : Text → AuditError → StartError

-- The gateway, and what else the start sets up: the socket, the queue's timeout in seconds and whether
-- it notifies, and the endpoint of the checker, if it is not the offline one.
pub record Started (ed : Ed25519) (cel : Cel) : Type 0 where
  pub gateway : State.Config ed cel
  pub state : State
  pub socket : Text
  pub timeout : ℕ
  pub notifications : Bool
  pub endpoint : Option Text

unfoldable pub on_error : {A E F : Type 0} → (E → F) → Result A E → Result A F
on_error f (ok a) = ok a
on_error f (err e) = err (f e)

unfoldable pub made : FileSystem → Option Text → Result (Unit {0}) StartError
made fs none = ok tt
made fs (some dir) = if fs.create_dir_all dir then ok tt else err (audit_directory dir)

unfoldable pub pushed : Option Text → List Text
pushed none = []
pushed (some p) = p ∷ []

-- What the start depends on: the environment, the file system, the readers of the two kinds of TOML text,
-- the text of the policy that is built in, the opening of a log, and the directory for temporary files.
pub record Host : Type 0 where
  pub var : Text → Option Text
  pub fs : FileSystem
  pub parse_config : Text → Result Config Text
  pub parse_policy : Text → Result Policy Text
  pub default_policy : Text
  pub open_log : Text → Result Database Text
  pub temp_dir : Text

module _ (ed : Ed25519) (cel : Cel) (blake3 : Text → Text) (h : Host) where
  unfoldable pub load_policy : Option Text → Result (CompiledPolicy cel) StartError
  unfolding on_error compile_toml
  load_policy none =
      on_error (policy_invalid none) (compile_toml cel h.parse_policy h.default_policy)
  load_policy (some path) = do
    src ← on_error (policy_unreadable path) (h.fs.read_to_string path)
    on_error (policy_invalid (some path)) (compile_toml cel h.parse_policy src)

  unfoldable pub open_audit : Text → Result Database StartError
  unfolding made on_error verify parent
  open_audit path = do
    made h.fs (parent path)
    log ← on_error (audit_unopened path) (h.open_log path)
    on_error (audit_tampered path) (verify ed blake3 none log)
    ok log

  -- The daemon's own files.
  unfoldable pub protected : Config → List Text
  unfolding pushed
  protected cfg =
      guardian_dir h.var
      ∷ config_path h.var
      ∷ kill_switch_path h.var
      ∷ audit_path h.var cfg
      ∷ socket_path h.var h.temp_dir cfg
      ∷ pushed (policy_path h.var cfg)

  -- The gateway that `main` makes; the log is its only part that can still fail.
  unfoldable pub started : Config → CompiledPolicy cel → Database → Started ed cel
  unfolding bytes
  started cfg policy log = record {
    gateway = record {
      source = bytes "daemon";
      policy = policy;
      env = record {
        user_home = unwrap_or (h.var (bytes "HOME")) (bytes "/tmp");
        trusted_hosts = cfg.trusted_hosts;
      };
      self_protection = record {
        protected_prefixes = protected cfg;
        kill_switch = some (kill_switch_path h.var);
      };
      signing_key = none;
    };
    state = record {
      audit = log;
      counter = 0;
      data_protection = cfg.protect;
      vaults = [];
      events = [];
    };
    socket = socket_path h.var h.temp_dir cfg;
    timeout = approval_timeout cfg;
    notifications = notifications_enabled cfg;
    endpoint = checker_endpoint h.var cfg;
  }

  -- `main`, up to serving the socket
  unfoldable pub start : Result (Started ed cel) StartError
  unfolding on_error load_policy open_audit started
  start = do
    cfg ← on_error config (load h.var h.fs h.parse_config).0
    policy ← load_policy (policy_path h.var cfg)
    log ← open_audit (audit_path h.var cfg)
    ok (started cfg policy log)
