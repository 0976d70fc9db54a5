-- ===== src/Tests/Starting.antt =====
-- A daemon that starts by crates/guardian-daemon/src/main.rs on its first run, with nothing configured.
use project_guardian.Common.{
  true, false, Option, none, some, [], ◌∷◌, ◌≡◌, ◌↔◌, Text, bytes, Result, ok, err, inl, inr, refl,
}
use project_guardian.Core.{is_critical, object, member, string, end, ActionKind}
use project_guardian.Policy.Schema.{Policy, validate_structure}
use project_guardian.Policy.Engine.{CompiledPolicy, compile_toml, evaluate, rule_decision}
use project_guardian.Audit.Log.{Database, empty, append}
use project_guardian.Audit.Log.Chain.{empty-IsIntact}
use project_guardian.Gateway.Call.{str_arg, ToolCall, build_action}
use project_guardian.Gateway.Paths.{modifies, normalize_abs, path_starts_with, override_deny}
use project_guardian.Gateway.State.{approved, tokenization_on}
use project_guardian.Gateway.Handle.{
  handle, normalize, decide, mediate, conclude, consult, record_entry, dispatch,
}
use project_guardian.Gateway.Handle.Mediation.{action_of}
use project_guardian.Gateway.Handle.Denial.{IsStopped}
use project_guardian.Daemon.Config.{
  Config, FileSystem, default_config, parent, kill_switch_path, audit_path, policy_path,
  guardian_dir, approval_timeout,
}
use project_guardian.Daemon.Startup.{Host, Started, started}
use project_guardian.Daemon.Startup.Guards.{
  IsConfigured, HasPolicy, HasLog, start_with, starting, start-eq-ok_iff,
}
use project_guardian.Daemon.Startup.Runs.{after, start-critical, start-IsStopped}
use project_guardian.Tests.Samples.{
  sample_ed, sample_cel, sample_hash, no_number, sample_ports, sample_policy, compiled_sample,
  allow_rule, payment_call,
}

abbrev no_var : Text → Option Text
no_var name = none

abbrev no_files : FileSystem
no_files = record {
  exists = λ path. false;
  read_to_string = λ path. err (bytes "not found");
  write = λ path content. true;
  create_dir_all = λ path. true;
}

abbrev no_toml : Text → Result Config Text
no_toml s = err s

abbrev parse_default : Text → Result Policy Text
parse_default s = ok (sample_policy (allow_rule ∷ []))

abbrev new_log : Text → Result Database Text
new_log path = ok empty

abbrev bare_host : Host
bare_host = record {
  var = no_var;
  fs = no_files;
  parse_config = no_toml;
  parse_policy = parse_default;
  default_policy = [];
  open_log = new_log;
  temp_dir = bytes "/tmp";
}

abbrev compiled : CompiledPolicy sample_cel
compiled = compiled_sample (allow_rule ∷ []) (true ∷ [])

abbrev first_start : Started sample_ed sample_cel
first_start = start_with sample_ed sample_cel sample_hash bare_host default_config compiled empty

start-eq-ok_iff_example : (starting sample_ed sample_cel sample_hash bare_host ≡ ok first_start) ↔ (
    (cfg : Config) × (policy : CompiledPolicy sample_cel) × (log : Database) × IsConfigured
      sample_ed sample_cel sample_hash bare_host cfg
    × HasPolicy sample_ed sample_cel sample_hash bare_host (policy_path no_var cfg) policy
    × HasLog sample_ed sample_cel sample_hash bare_host (audit_path no_var cfg) log
    × (start_with sample_ed sample_cel sample_hash bare_host cfg policy log ≡ first_start))
start-eq-ok_iff_example = start-eq-ok_iff sample_ed sample_cel sample_hash bare_host first_start

starts : starting sample_ed sample_cel sample_hash bare_host ≡ ok first_start
unfolding parent audit_path policy_path compile_toml validate_structure bytes default_config
starts = (start-eq-ok_iff sample_ed sample_cel sample_hash bare_host first_start).1 (
  default_config,
  compiled,
  empty,
  inl (refl, refl),
  refl,
  (refl, refl, empty-IsIntact sample_hash),
  refl,
)

start-critical_example :
    let s =
      after sample_ed sample_cel no_number sample_hash first_start.gateway
        ((sample_ports, payment_call) ∷ [])
        first_start.state in
    let action =
      action_of sample_ed sample_cel no_number sample_ports first_start.gateway sample_hash
        payment_call s in
    sample_ports.request_approval action (sample_ports.explain action) ≡ approved
unfolding handle is_critical normalize build_action decide override_deny mediate conclude consult
    evaluate rule_decision record_entry append empty dispatch tokenization_on started default_config
start-critical_example =
    start-critical sample_ed sample_cel no_number sample_hash bare_host first_start
      ((sample_ports, payment_call) ∷ []) sample_ports payment_call starts refl refl

abbrev overwriting : ToolCall
overwriting = record {
  tool = bytes "write_file";
  args = object (member (bytes "path") (string (bytes "/x/../.guardian/config.toml")) end);
  kind = some ActionKind.file_write;
  capability = none;
  session = none;
}

start-IsStopped_example : IsStopped first_start.state (
    handle sample_ed sample_cel no_number sample_ports first_start.gateway sample_hash overwriting
      first_start.state)
unfolding normalize build_action bytes modifies normalize_abs path_starts_with guardian_dir
    tokenization_on str_arg
start-IsStopped_example =
    start-IsStopped sample_ed sample_cel no_number sample_hash bare_host first_start default_config
      (guardian_dir no_var) (bytes "/x/../.guardian/config.toml") sample_ports overwriting
      first_start.state starts (inl (refl, refl)) (inl refl) (inr (refl, refl, refl))

-- A configured time of 0 is not taken.
approval_timeout-zero :
    approval_timeout (record default_config { approval_timeout_secs = some 0 }) ≡ 120
unfolding approval_timeout
approval_timeout-zero = refl

-- The kill switch stands next to the configuration.
kill_switch_path-beside :
    kill_switch_path (λ name. some (bytes "/tmp/g//config.toml/.")) ≡ bytes "/tmp/g/STOP"
unfolding kill_switch_path parent bytes
kill_switch_path-beside = refl

-- A home directory that is written with a tilde stays so.
audit_path-tilde :
    audit_path no_var (record default_config { audit = some (bytes "~/.guardian/audit.db") })
    ≡ bytes "~/.guardian/audit.db"
unfolding audit_path
audit_path-tilde = refl
