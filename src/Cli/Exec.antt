-- ===== src/Cli/Exec.antt =====
-- crates/guardian-cli/src/main.rs: `run_exec`, which runs a command that the policy allows, contained where
-- the policy says so. The log's file and what the command comes to are left out: the result is the exit
-- code of a refusal, or the command line that is run.
use project_guardian.Common.{
  ℕ, ℤ, Bool, Option, none, some, List, [], ◌∷◌, ◌++◌, Text, bytes, F64, if◌then◌else◌,
}
use project_guardian.Core.{object, end, string, ActionKind, Action, Decision, allow, ask, deny}
use project_guardian.Policy.Cel.{Cel}
use project_guardian.Policy.Engine.{EvalEnv, CompiledPolicy, evaluate}
use project_guardian.Audit.Log.{AuditEntry, for_decision}
use project_guardian.Gateway.Call.{ToolCall, build_action}
use project_guardian.Sandbox.{SandboxOpts, Runner, wrap}

pub data Run : Type 0 where
  exits : ℕ → Run
  runs : List Text → Run

-- `cmd.join(" ")`
joined : List Text → Text
joined [] = []
joined (x ∷ []) = x
joined (x ∷ y ∷ xs) = x ++ (b' ' ∷ joined (y ∷ xs))

unfoldable pub exec_call : Text → List Text → ToolCall
unfolding joined bytes
exec_call program args = record {
  tool = program;
  args = object (project_guardian.Core.member (bytes "cmd") (string (joined (program ∷ args))) end);
  kind = some ActionKind.exec;
  capability = none;
  session = none;
}

contained : Option Runner → Text → List Text → SandboxOpts → Run
unfolding wrap
contained none program args opts = exits 126
contained (some runner) program args opts = runs (wrap runner program args opts)

unfoldable pub run_decided : Decision → Bool → Option Runner → Text → List Text → SandboxOpts → Run
unfolding contained
run_decided (deny reason) sandbox runner program args opts = exits 126
run_decided (ask reason) sandbox runner program args opts = exits 126
run_decided allow sandbox runner program args opts =
    if sandbox then contained runner program args opts else runs (program ∷ args)

module _ (cel : Cel) (parse_f64 : Text → Option F64) (policy : CompiledPolicy cel) (env : EvalEnv)
    (now_ms : ℤ) (runner : Option Runner) where
  unfoldable pub exec_action : Text → List Text → Action
  unfolding exec_call build_action bytes
  exec_action program args =
      build_action (exec_call program args) (bytes "exec") (bytes "exec") now_ms

  -- The entry that is recorded, and what is run.
  unfoldable pub run_exec : Text → List Text → SandboxOpts → AuditEntry × Run
  unfolding exec_action run_decided
  run_exec program args opts =
      let action = exec_action program args in
      let o = evaluate cel parse_f64 policy action env in
      (
        for_decision action o.decision o.matched_rule none none o.critical,
        run_decided o.decision o.sandbox runner program args opts,
      )
