-- ===== src/Tests/Recording.antt =====
-- Concrete audit logs of crates/guardian-audit.
use project_guardian.Common.{
  ℕ, bytes, ℤ, some, none, text_eq, ◌↔◌, ◌⊎◌, Bool, true, false, none, some, List, [], ◌∷◌, Text,
  ok, ◌≡◌, refl, length, arith,
}
use project_guardian.Audit.Log.{AuditEntry, Database, empty, genesis, verify, verify_chain}
use project_guardian.Audit.Log.Chain.{IsLinked, fold_hash, contents, verify_chain-eq-ok_iff}
use project_guardian.Audit.Log.History.{record_all, record_all-verify}
use project_guardian.Audit.Log.Evidence.{Collision, verify_chain_evidence}
use project_guardian.Tests.Samples.{sample_ed, sample_ed_laws, sample_hash}

abbrev sample_log : Database
sample_log = record {
  rows =
      record { seq = 1; content = 5 ∷ []; prev_hash = genesis; hash = sample_hash (5 ∷ []) } ∷ [];
  last_seq = 1;
  last_hash = sample_hash (5 ∷ []);
  head_sig = none;
}

verify_chain-eq-ok_iff_example :
    (verify_chain sample_hash sample_log ≡ ok (1, sample_log.last_hash)) ↔ (
      IsLinked sample_hash 0 genesis sample_log.rows
      × (sample_log.last_seq ≡ length sample_log.rows)
      × (sample_log.last_hash ≡ fold_hash sample_hash genesis (contents sample_log.rows))
      × (1 ≡ sample_log.last_seq)
      × (sample_log.last_hash ≡ sample_log.last_hash))
verify_chain-eq-ok_iff_example =
    verify_chain-eq-ok_iff sample_hash sample_log 1 sample_log.last_hash

abbrev sample_run : List (Bool × Text)
sample_run = (true, 9 ∷ []) ∷ (false, 8 ∷ []) ∷ (true, 7 ∷ []) ∷ []

record_all-verify_example :
    verify sample_ed sample_hash
      (some 3)
      (record_all sample_ed sample_hash (some 3) sample_run empty)
    ≡ ok tt
record_all-verify_example =
    record_all-verify sample_ed sample_hash sample_ed_laws (some 3) sample_run (λ e. ground arith)

verify_chain_evidence_example :
    (contents sample_log.rows ≡ contents sample_log.rows) ⊎ Collision sample_hash
unfolding verify_chain genesis text_eq
verify_chain_evidence_example =
    verify_chain_evidence sample_hash (λ s. refl) sample_log sample_log 1 (sample_hash (5 ∷ []))
      refl refl

abbrev sample_review : AuditEntry
sample_review = record {
  timestamp_ms = ℤ.pos 1;
  action_id = [];
  action_kind = bytes "email";
  decision = bytes "ask";
  decision_reason = none;
  matched_rule = some (bytes "k");
  checker_rationale = none;
  user_response = some (bytes "approved");
  critical = false;
  host = none;
}

no_digits : ℕ → Text
no_digits n = []
