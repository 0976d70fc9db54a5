-- ===== src/Vault/Luhn.antt =====
-- The card checksum of crates/guardian-broker/src/vault.rs.
pub mod Errors
use project_guardian.Common.{
  ℕ, ◌+◌, ◌-◌, ◌*◌, ◌%◌, Bool, true, false, not, [], ◌∷◌, Text, ltb, ◌==◌, if◌then◌else◌,
}
use mathlib.Core.List.{reverse}

-- What one digit adds, doubled or not.
unfoldable pub contribution : Bool → ℕ → ℕ
contribution false v = v
contribution true v = if ltb 9 (v * 2) then v * 2 - 9 else v * 2

-- The loop over the digits, last first; the sum of at most 19 digits fits 32 bits.
unfoldable pub luhn_sum : Bool → ℕ → Text → ℕ
unfolding contribution
luhn_sum double sum [] = sum
luhn_sum double sum (d ∷ ds) = luhn_sum (not double) (sum + contribution double (d - b'0')) ds

unfoldable pub luhn_ok : Text → Bool
unfolding luhn_sum
luhn_ok digits = luhn_sum false 0 (reverse digits) % 10 == 0
