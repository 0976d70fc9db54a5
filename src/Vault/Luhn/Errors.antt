-- ===== src/Vault/Luhn/Errors.antt =====
-- The errors that the checksum of crates/guardian-broker/src/vault.rs detects.
use project_guardian.Common.{
  ℕ, ◌+◌, ◌-◌, ◌%◌, ◌≤◌, Bool, true, false, not, [], ◌∷◌, ◌++◌, Text, ◌≡◌, refl, ap, ◌∙◌, arith,
}
use mathlib.Core.List.{reverse, reverse-append, reverse-cons, append_assoc}
use project_guardian.Vault.Luhn.{contribution, luhn_sum, luhn_ok}

-- Whether the digit behind these is doubled.
abbrev flips : Bool → Text → Bool
flips double [] = double
flips double (d ∷ ds) = flips (not double) ds

luhn_sum-append :
    (double : Bool) (sum : ℕ) (u w : Text)
    → luhn_sum double sum (u ++ w) ≡ luhn_sum (flips double u) (luhn_sum double sum u) w
unfolding luhn_sum
luhn_sum-append double sum [] w = refl
luhn_sum-append double sum (d ∷ u) w =
    luhn_sum-append (not double) (sum + contribution double (d - b'0')) u w

luhn_sum_shift :
    (double : Bool) (sum : ℕ) (ds : Text) → luhn_sum double sum ds ≡ sum + luhn_sum double 0 ds
unfolding luhn_sum
luhn_sum_shift double sum [] = omega arith
luhn_sum_shift double sum (d ∷ ds) = omega (
  arith,
  luhn_sum_shift (not double) (sum + contribution double (d - b'0')) ds,
  luhn_sum_shift (not double) (0 + contribution double (d - b'0')) ds,
)

luhn_sum-cons :
    (double : Bool) (sum d : ℕ) (ds : Text)
    → luhn_sum double sum (d ∷ ds)
      ≡ sum + contribution double (d - b'0') + luhn_sum (not double) 0 ds
unfolding luhn_sum
luhn_sum-cons double sum d ds =
    luhn_sum_shift (not double) (sum + contribution double (d - b'0')) ds

le-contribution : (double : Bool) (v : ℕ) → v ≤ 9 → contribution double v ≤ 9
unfolding contribution
le-contribution false v h = h
le-contribution true v h = ground arith

contribution-injective :
    (double : Bool) (v w : ℕ)
    → v ≤ 9
    → w ≤ 9
    → contribution double v ≡ contribution double w
    → v ≡ w
unfolding contribution
contribution-injective false v w h k e = e
contribution-injective true v w h k e = ground arith

congruent : (a b c d : ℕ) → c ≤ 9 → d ≤ 9 → (a + c + b) % 10 ≡ 0 → (a + d + b) % 10 ≡ 0 → c ≡ d
congruent a b c d h k e f = omega arith

reverse-middle :
    (before after : Text) (x : ℕ)
    → reverse (before ++ x ∷ after) ≡ reverse after ++ x ∷ reverse before
reverse-middle before after x =
    reverse-append before (x ∷ after)
    ∙ ap (λ (s : Text). s ++ reverse before) (reverse-cons x after)
    ∙ append_assoc (reverse after) (x ∷ []) (reverse before)

luhn_ok-middle :
    (before after : Text) (x : ℕ)
    → luhn_ok (before ++ x ∷ after) ≡ true
    → (luhn_sum false 0 (reverse after)
          + contribution (flips false (reverse after)) (x - b'0')
          + luhn_sum (not (flips false (reverse after))) 0 (reverse before))
        % 10
      ≡ 0
unfolding luhn_ok
luhn_ok-middle before after x h =
    let u = reverse after in
    ground (
      arith,
      ap (luhn_sum false 0) (reverse-middle before after x),
      luhn_sum-append false 0 u (x ∷ reverse before),
      luhn_sum-cons (flips false u) (luhn_sum false 0 u) x (reverse before),
    )

-- The checksum detects every error in one digit: of the numbers that differ in one digit at most one
-- passes.
pub luhn_ok-one_digit :
    (before after : Text) (x y : ℕ)
    → b'0' ≤ x
    → x ≤ b'9'
    → b'0' ≤ y
    → y ≤ b'9'
    → luhn_ok (before ++ x ∷ after) ≡ true
    → luhn_ok (before ++ y ∷ after) ≡ true
    → x ≡ y
luhn_ok-one_digit before after x y x0 x9 y0 y9 h k =
    let double = flips false (reverse after) in
    let vx : x - b'0' ≤ 9 = omega arith in
    let vy : y - b'0' ≤ 9 = omega arith in
    let same =
      congruent (luhn_sum false 0 (reverse after)) (luhn_sum (not double) 0 (reverse before)) _ _
        (le-contribution double (x - b'0') vx) (le-contribution double (y - b'0') vy)
        (luhn_ok-middle before after x h) (luhn_ok-middle before after y k) in
    omega (arith, contribution-injective double (x - b'0') (y - b'0') vx vy same)
