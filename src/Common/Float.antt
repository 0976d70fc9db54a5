-- ===== src/Common/Float.antt =====
-- Rust's `f64` as its 64-bit pattern: the order, and the conversion from integers that rounds to
-- nearest, ties to even.
use Prim.Native.Nat.{ℕ, zero, suc, ◌+◌, ◌-◌, ◌*◌, ◌/◌, ◌%◌, ◌^◌}
use mathlib.Core.Bool.{Bool, false, ◌&&◌, ◌||◌}
use project_guardian.Common.Tests.{ltb, leb, ◌==◌, if◌then◌else◌}
use project_guardian.Common.Int.{ℤ, pos, negsuc}

-- The bit pattern, below 2 ^ 64.
abbrev pub F64 : Type 0
F64 = ℕ

magnitude : F64 → ℕ
magnitude x = x % 2 ^ 63

is_negative : F64 → Bool
is_negative x = leb (2 ^ 63) x

-- The exponent is all ones and the fraction is not zero.
unfoldable pub is_nan : F64 → Bool
unfolding magnitude
is_nan x = ltb 0x7FF0000000000000 (magnitude x)

-- `a > b`, false when either is a NaN
unfoldable pub f64_gt : F64 → F64 → Bool
unfolding magnitude is_negative is_nan
f64_gt a b =
    if is_nan a || is_nan b
    then false
    else if is_negative a
    then is_negative b && ltb (magnitude a) (magnitude b)
    else if is_negative b
    then ltb 0 (magnitude a + magnitude b)
    else ltb (magnitude b) (magnitude a)

-- The number of binary digits, at most the fuel.
bit_length : ℕ → ℕ → ℕ
bit_length zero n = 0
bit_length (suc fuel) n = let rest = bit_length fuel (n / 2) in if n == 0 then 0 else suc rest

round_even : ℕ → ℕ → ℕ
round_even n s =
    let q = n / 2 ^ s in
    let r = n % 2 ^ s in if ltb (2 ^ (s - 1)) r || r == 2 ^ (s - 1) && q % 2 == 1 then q + 1 else q

-- `n as f64` for a 64-bit unsigned `n`; 64 rounds reach every digit.
unfoldable pub f64_of_nat : ℕ → F64
unfolding bit_length round_even
f64_of_nat n =
    let e = bit_length 64 n - 1 in
    if n == 0
    then 0
    else if leb e 52
    then (e + 1023) * 2 ^ 52 + (n - 2 ^ e) * 2 ^ (52 - e)
    else (e + 1022) * 2 ^ 52 + round_even n (e - 52)

-- `n as f64` for a 64-bit signed `n`
unfoldable pub f64_of_int : ℤ → F64
unfolding f64_of_nat
f64_of_int (pos n) = f64_of_nat n
f64_of_int (negsuc n) = 2 ^ 63 + f64_of_nat (suc n)
