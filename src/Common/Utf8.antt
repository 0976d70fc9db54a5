-- ===== src/Common/Utf8.antt =====
-- What Rust's standard library accepts as UTF-8, and the integers that `str::parse` reads.
use Prim.Native.Nat.{ℕ, zero, suc, ◌+◌, ◌-◌, ◌*◌, ◌^◌}
use mathlib.Core.Bool.{Bool, true, false, ◌&&◌}
use mathlib.Core.Option.{Option, none, some}
use mathlib.Core.List.{List, [], ◌∷◌, ◌++◌}
use project_guardian.Common.Tests.{ltb, leb, ◌==◌, if◌then◌else◌}
use project_guardian.Common.Lists.{length, drop}
use project_guardian.Common.Strings.{Text}

between : ℕ → ℕ → ℕ → Bool
between lo hi b = leb lo b && leb b hi

-- The bytes of the character that the bytes begin with, 0 if they begin with none.
leading_char : Text → ℕ
unfolding between
leading_char [] = 0
leading_char (a ∷ []) = if ltb a 0x80 then 1 else 0
leading_char (a ∷ b ∷ []) =
    if ltb a 0x80 then 1 else if between 0xC2 0xDF a && between 0x80 0xBF b then 2 else 0
leading_char (a ∷ b ∷ c ∷ []) =
    if ltb a 0x80
    then 1
    else if between 0xC2 0xDF a && between 0x80 0xBF b
    then 2
    else if between 0xE0 0xEF a
        && between (if a == 0xE0 then 0xA0 else 0x80) (if a == 0xED then 0x9F else 0xBF) b
        && between 0x80 0xBF c
    then 3
    else 0
leading_char (a ∷ b ∷ c ∷ d ∷ _) =
    if ltb a 0x80
    then 1
    else if between 0xC2 0xDF a && between 0x80 0xBF b
    then 2
    else if between 0xE0 0xEF a
        && between (if a == 0xE0 then 0xA0 else 0x80) (if a == 0xED then 0x9F else 0xBF) b
        && between 0x80 0xBF c
    then 3
    else if between 0xF0 0xF4 a
        && between (if a == 0xF0 then 0x90 else 0x80) (if a == 0xF4 then 0x8F else 0xBF) b
        && between 0x80 0xBF c
        && between 0x80 0xBF d
    then 4
    else 0

-- A round takes a character, of at least one byte.
chars_from : ℕ → Text → Bool
unfolding leading_char
chars_from fuel [] = true
chars_from zero (a ∷ s) = false
chars_from (suc fuel) (a ∷ s) =
    let rest = chars_from fuel (drop (leading_char (a ∷ s)) (a ∷ s)) in
    if leading_char (a ∷ s) == 0 then false else rest

-- `str::from_utf8(bytes).is_ok()`
unfoldable pub is_utf8 : Text → Bool
unfolding chars_from
is_utf8 s = chars_from (length s) s

digits_from : ℕ → Text → Option ℕ
digits_from n [] = some n
digits_from n (c ∷ s) =
    let m = n * 10 + (c - b'0') in
    let rest = digits_from m s in if leb b'0' c && leb c b'9' && ltb m (2 ^ 64) then rest else none

-- `str::parse::<u64>`, which `usize` is on the platforms of 64 bits: an optional plus, then digits
unfoldable pub parse_u64 : Text → Option ℕ
unfolding digits_from
parse_u64 [] = none
parse_u64 (c ∷ []) = digits_from 0 (c ∷ [])
parse_u64 (c ∷ d ∷ s) = if c == b'+' then digits_from 0 (d ∷ s) else digits_from 0 (c ∷ d ∷ s)

continues : Text → Bool
unfolding between
continues [] = false
continues (b ∷ s) = between 0x80 0xBF b

add_to_first : ℕ → List Text → List Text
add_to_first c [] = (c ∷ []) ∷ []
add_to_first c (x ∷ xs) = (c ∷ x) ∷ xs

-- `str::chars`, each character as its bytes
unfoldable pub chars : Text → List Text
unfolding continues add_to_first
chars [] = []
chars (c ∷ s) = let rest = chars s in if continues s then add_to_first c rest else (c ∷ []) ∷ rest

-- The characters together.
unfoldable pub from_chars : List Text → Text
from_chars [] = []
from_chars (c ∷ cs) = c ++ from_chars cs
