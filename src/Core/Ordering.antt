-- ===== src/Core/Ordering.antt =====
-- Most-restrictive-wins of crates/guardian-core/src/lib.rs as a left-biased maximum.
use project_guardian.Common.{◌≡◌, ◌⊎◌, ◌<◌, max, arith}
use project_guardian.Core.Decisions.{Decision, allow, restrictiveness, most_restrictive}

-- The combination is as restrictive as the more restrictive of the two, and is one of them: the
-- second only where it is strictly more restrictive.
pub most_restrictive-IsMax :
    (d e : Decision)
    → (restrictiveness (most_restrictive d e) ≡ max (restrictiveness d) (restrictiveness e))
      × ((most_restrictive d e ≡ d)
          ⊎ (most_restrictive d e ≡ e) × (restrictiveness d < restrictiveness e))
unfolding most_restrictive
most_restrictive-IsMax d e = ground arith

-- Combining is associative, so the order in which three decisions are folded does not matter.
pub most_restrictive_assoc :
    (a b c : Decision)
    → most_restrictive (most_restrictive a b) c ≡ most_restrictive a (most_restrictive b c)
unfolding most_restrictive
most_restrictive_assoc a b c = ground arith

pub most_restrictive-eq-allow :
    (d e : Decision) → most_restrictive d e ≡ allow → (d ≡ allow) × (e ≡ allow)
unfolding most_restrictive
most_restrictive-eq-allow d e h = ground arith
