-- ===== src/Cli/Evaluation/Counts.antt =====
-- The confusion matrix of crates/guardian-cli/src/eval.rs counts what the cases came to.
use project_guardian.Common.{
  length, ℕ, suc, ◌+◌, ◌^◌, ◌≤◌, ◌<◌, Bool, true, false, not, ◌&&◌, List, [], ◌∷◌, ◌≡◌, arith,
  if◌then◌else◌,
}
use project_guardian.Cli.Evaluation.{
  no_report, evaluate_all, eval_env, tally, evaluate, tally_all, is_allow, CompiledPolicy, F64,
  Option, Text, Cel, Expected, passes, stops, Case, Report, increment, score,
}

abbrev pub count : (Case → Bool) → List Case → ℕ
count p [] = 0
count p (c ∷ cases) = if p c then suc (count p cases) else count p cases

abbrev pub is_stop : Expected → Bool
is_stop passes = false
is_stop stops = true

abbrev pub expects_stop : Case → Bool
expects_stop c = is_stop c.expected

abbrev pub AtMost : ℕ → Report → Type 0
AtMost n r =
    (r.true_positives ≤ n)
    × (r.false_negatives ≤ n)
    × (r.true_negatives ≤ n)
    × (r.false_positives ≤ n)
    × (r.critical_false_negatives ≤ n)
    × (r.total ≤ n)

-- The second report is the first one with these numbers added.
abbrev pub Adds : Report → ℕ → ℕ → ℕ → ℕ → ℕ → ℕ → Report → Type 0
Adds r tp fn tn fp cfn n s =
    (s.true_positives ≡ r.true_positives + tp)
    × (s.false_negatives ≡ r.false_negatives + fn)
    × (s.true_negatives ≡ r.true_negatives + tn)
    × (s.false_positives ≡ r.false_positives + fp)
    × (s.critical_false_negatives ≡ r.critical_false_negatives + cfn)
    × (s.total ≡ r.total + n)

abbrev unit : Bool → ℕ
unit b = if b then 1 else 0

increment_lem : (n : ℕ) → suc n < 2 ^ 32 → increment n ≡ n + 1
unfolding increment
increment_lem n h = ground arith

score_lem :
    (e : Expected) (allowed critical : Bool) (r : Report) (n : ℕ)
    → AtMost n r
    → suc n < 2 ^ 32
    → Adds r
        (unit (is_stop e && not allowed))
        (unit (is_stop e && allowed))
        (unit (not (is_stop e) && allowed))
        (unit (not (is_stop e) && not allowed))
        (unit (is_stop e && critical && allowed))
        0
        (score e (not allowed) critical r).0
unfolding score increment
score_lem passes true critical r n h small = ground arith
score_lem passes false critical r n h small = ground arith
score_lem stops true true r n h small = ground arith
score_lem stops true false r n h small = ground arith
score_lem stops false true r n h small = ground arith
score_lem stops false false r n h small = ground arith

module _ (cel : Cel) (parse_f64 : Text → Option F64) (policy : CompiledPolicy cel) where
  abbrev pub is_allowed : Case → Bool
  is_allowed c = is_allow (evaluate cel parse_f64 policy c.action eval_env).decision

  abbrev pub is_silent_critical : Case → Bool
  is_silent_critical c = expects_stop c && c.critical && is_allowed c

  abbrev AddsAll : Report → List Case → Report → Type 0
  AddsAll r cases s =
      Adds r (count (λ c. expects_stop c && not (is_allowed c)) cases)
        (count (λ c. expects_stop c && is_allowed c) cases)
        (count (λ c. not (expects_stop c) && is_allowed c) cases)
        (count (λ c. not (expects_stop c) && not (is_allowed c)) cases)
        (count is_silent_critical cases) (length cases) s

  tally-AddsAll :
      (c : Case) (r : Report) (n : ℕ)
      → AtMost n r
      → suc n < 2 ^ 32
      → AddsAll r (c ∷ []) (tally c (evaluate cel parse_f64 policy c.action eval_env).decision r).0
  unfolding tally
  tally-AddsAll c r n h small = ground (
    arith,
    score_lem c.expected (is_allowed c) c.critical r n h small,
    increment_lem r.total (omega (arith, h, small)),
  )

  tally_all-AddsAll :
      (cases : List Case) (r : Report) (n : ℕ)
      → AtMost n r
      → n + length cases < 2 ^ 32
      → AddsAll r cases (tally_all cel parse_f64 policy cases r).0
  unfolding tally_all
  tally_all-AddsAll [] r n h small = ground arith
  tally_all-AddsAll (c ∷ cases) r n h small =
      let one = tally-AddsAll c r n h (ground arith) in
      let d = (evaluate cel parse_f64 policy c.action eval_env).decision in
      let rest =
        tally_all-AddsAll cases (tally c d r).0 (suc n) (ground (arith, one, h)) (ground arith) in
      ground (arith, one, rest)

  -- The report of fewer than 2 ^ 32 cases counts the ones that had to be stopped and were, that had to
  -- be stopped and were allowed, that had to be allowed and were, and that had to be allowed and were
  -- stopped, among those that had to be stopped and were allowed the ones marked as critical, and all.
  pub evaluate_all-counts :
      (cases : List Case)
      → length cases < 2 ^ 32
      → let r = (evaluate_all cel parse_f64 policy cases).0 in
        (r.true_positives ≡ count (λ c. expects_stop c && not (is_allowed c)) cases)
        × (r.false_negatives ≡ count (λ c. expects_stop c && is_allowed c) cases)
        × (r.true_negatives ≡ count (λ c. not (expects_stop c) && is_allowed c) cases)
        × (r.false_positives ≡ count (λ c. not (expects_stop c) && not (is_allowed c)) cases)
        × (r.critical_false_negatives ≡ count is_silent_critical cases)
        × (r.total ≡ length cases)
  unfolding evaluate_all no_report
  evaluate_all-counts cases small =
      ground (arith, tally_all-AddsAll cases no_report 0 (ground arith) (omega (arith, small)))
