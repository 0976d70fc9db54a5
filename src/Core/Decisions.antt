-- ===== src/Core/Decisions.antt =====
-- crates/guardian-core/src/lib.rs: decisions and most-restrictive-wins.
use project_guardian.Common.{
  ℕ, Bool, true, false, Text, ltb, if◌then◌else◌, text_eq, text_eq_iff, ◌≡◌, ◌↔◌, arith,
}

pub data Decision : Type 0 where
  allow : Decision
  ask : Text → Decision
  deny : Text → Decision

unfoldable pub restrictiveness : Decision → ℕ
restrictiveness allow = 0
restrictiveness (ask _) = 1
restrictiveness (deny _) = 2

unfoldable pub is_allow : Decision → Bool
is_allow allow = true
is_allow _ = false

-- On a tie the first decision is kept.
unfoldable pub most_restrictive : Decision → Decision → Decision
unfolding restrictiveness
most_restrictive d e = if ltb (restrictiveness d) (restrictiveness e) then e else d

-- the derived `==`
unfoldable pub decision_eq : Decision → Decision → Bool
unfolding text_eq
decision_eq allow allow = true
decision_eq (ask r) (ask s) = text_eq r s
decision_eq (deny r) (deny s) = text_eq r s
decision_eq _ _ = false

pub decision_eq_iff : (d e : Decision) → (decision_eq d e ≡ true) ↔ (d ≡ e)
unfolding decision_eq
decision_eq_iff allow allow = ground arith
decision_eq_iff (ask r) (ask s) = ground (arith, text_eq_iff r s)
decision_eq_iff (deny r) (deny s) = ground (arith, text_eq_iff r s)
decision_eq_iff _ _ = ground arith
