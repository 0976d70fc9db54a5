-- ===== src/Audit/Log/Tail.antt =====
-- `AuditLog::tail` of crates/guardian-audit/src/lib.rs: the newest entries, for display.
use project_guardian.Common.{
  ℕ, ℤ, false, Option, none, some, unwrap_or, List, [], ◌∷◌, Text, bytes, take,
}
use mathlib.Core.List.{reverse}
use project_guardian.Audit.Log.{AuditEntry, Row, Database}

-- The placeholder for a row whose content cannot be read.
unfoldable pub unreadable : AuditEntry
unfolding bytes
unreadable = record {
  timestamp_ms = ℤ.pos 0;
  action_id = [];
  action_kind = bytes "<unreadable>";
  decision = bytes "?";
  decision_reason = some (bytes "row content is not valid JSON");
  matched_rule = none;
  checker_rationale = none;
  user_response = none;
  critical = false;
  host = none;
}

module _ (decode : Text → Option AuditEntry) where
  unfoldable pub read_row : Row → ℕ × AuditEntry
  read_row r = (r.seq, unwrap_or (decode r.content) unreadable)

  read_rows : List Row → List (ℕ × AuditEntry)
  unfolding read_row
  read_rows [] = []
  read_rows (r ∷ rows) = read_row r ∷ read_rows rows

  -- `AuditLog::tail`: the newest rows first, cut, then turned round
  unfoldable pub tail : ℕ → Database → List (ℕ × AuditEntry)
  unfolding read_rows
  tail limit d = reverse (read_rows (take limit (reverse d.rows)))
