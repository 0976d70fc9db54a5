-- ===== src/Cli/Evaluation.antt =====
-- crates/guardian-cli/src/eval.rs: the tally of labelled cases as a confusion matrix. The counters are
-- `u32`. The ratios, which are floats, and the printing are left out.
pub mod Counts
pub mod Suite
pub mod Gate
use project_guardian.Common.{
  ◌^◌, ◌%◌, ◌+◌, ℕ, Bool, true, false, not, Option, List, [], ◌∷◌, Text, F64, bytes, if◌then◌else◌,
}
use project_guardian.Core.{Action, Decision, allow, ask, deny, is_allow}
use project_guardian.Policy.Cel.{Cel}
use project_guardian.Policy.Engine.{EvalEnv, CompiledPolicy, evaluate}

pub data Expected : Type 0 where
  passes stops : Expected

pub record Case : Type 0 where
  pub name : Text
  pub expected : Expected
  pub critical : Bool
  pub action : Action

pub record Report : Type 0 where
  pub true_positives : ℕ
  pub false_negatives : ℕ
  pub true_negatives : ℕ
  pub false_positives : ℕ
  pub critical_false_negatives : ℕ
  pub total : ℕ

-- `Report::default()`
unfoldable pub no_report : Report
no_report = record {
  true_positives = 0;
  false_negatives = 0;
  true_negatives = 0;
  false_positives = 0;
  critical_false_negatives = 0;
  total = 0;
}

pub record CaseResult : Type 0 where
  pub name : Text
  pub ok : Bool
  pub decision : Text

unfoldable pub eval_env : EvalEnv
unfolding bytes
eval_env = record { user_home = bytes "/home/u"; trusted_hosts = bytes "api.example.com" ∷ [] }

unfoldable pub increment : ℕ → ℕ
increment n = (n + 1) % 2 ^ 32

unfoldable pub label : Decision → Text
label allow = bytes "allow"
label (ask _) = bytes "ask"
label (deny _) = bytes "deny"

-- The match over what is expected: the counters and whether the case is all right.
unfoldable pub score : Expected → Bool → Bool → Report → Report × Bool
unfolding increment
score passes true critical r = (record r { false_positives = increment r.false_positives }, false)
score passes false critical r = (record r { true_negatives = increment r.true_negatives }, true)
score stops true critical r = (record r { true_positives = increment r.true_positives }, true)
score stops false critical r = (
  record r {
    false_negatives = increment r.false_negatives;
    critical_false_negatives =
        if critical then increment r.critical_false_negatives else r.critical_false_negatives;
  },
  false,
)

-- The body of the loop.
unfoldable pub tally : Case → Decision → Report → Report × CaseResult
unfolding score label increment is_allow
tally case d r =
    let (s, good) = score case.expected (not (is_allow d)) case.critical r in
    (
      record s { total = increment s.total },
      record { name = case.name; ok = good; decision = label d },
    )

module _ (cel : Cel) (parse_f64 : Text → Option F64) (policy : CompiledPolicy cel) where
  unfoldable pub tally_all : List Case → Report → Report × List CaseResult
  unfolding tally
  tally_all [] r = (r, [])
  tally_all (case ∷ cases) r =
      let (s, result) =
        tally case (evaluate cel parse_f64 policy case.action eval_env).decision r in
      let (t, results) = tally_all cases s in (t, result ∷ results)

  -- The cases are those of the suite; the policy is the compiled text of the suite.
  unfoldable pub evaluate_all : List Case → Report × List CaseResult
  unfolding tally_all no_report
  evaluate_all cases = tally_all cases no_report
