-- ===== src/Vault/Spans.antt =====
-- The spans that crates/guardian-broker/src/vault.rs takes for sensitive: known values, whatever their
-- ASCII case, and card numbers. A span is a start and an end in bytes.
pub mod Forward
use project_guardian.Common.{
  ℕ, zero, suc, ◌+◌, ◌-◌, Bool, true, false, ◌&&◌, ◌||◌, List, [], ◌∷◌, ◌++◌, Text, length, take,
  drop, ltb, leb, ◌==◌, if◌then◌else◌, eq_ignore_ascii_case,
}
use project_guardian.Vault.Luhn.{luhn_ok}

abbrev pub Span : Type 0
Span = ℕ × ℕ

-- `&text[s..e]`
abbrev pub slice : Text → ℕ → ℕ → Text
slice text s e = take (e - s) (drop s text)

-- Not the continuation byte of a character.
begins_char : Text → Bool
begins_char [] = true
begins_char (b ∷ _) = ltb b 0x80 || leb 0xC0 b

is_char_boundary : Text → ℕ → Bool
unfolding begins_char
is_char_boundary text i = i == 0 || begins_char (drop i text)

-- The loop of `find_all_ci` from position `i`; a round moves on by one byte at least.
find_ci_from : ℕ → Text → Text → ℕ → List Span
unfolding eq_ignore_ascii_case is_char_boundary
find_ci_from zero text needle i = []
find_ci_from (suc fuel) text needle i =
    let n = length needle in
    let found = (i, i + n) ∷ find_ci_from fuel text needle (i + n) in
    let missed = find_ci_from fuel text needle (i + 1) in
    if leb (i + n) (length text)
    then (if eq_ignore_ascii_case (slice text i (i + n)) needle
          && is_char_boundary text i
          && is_char_boundary text (i + n)
        then found
        else missed)
    else []

unfoldable pub find_all_ci : Text → Text → List Span
unfolding find_ci_from
find_all_ci text needle =
    if length needle == 0 || ltb (length text) (length needle)
    then []
    else find_ci_from (suc (length text)) text needle 0

unfoldable pub is_digit : ℕ → Bool
is_digit c = leb b'0' c && leb c b'9'

-- The inner loop of `find_card_spans`: the end of the run of digits, spaces and dashes, and the
-- position of its last digit.
run_from : Text → ℕ → ℕ → ℕ × ℕ
unfolding is_digit
run_from [] j last = (j, last)
run_from (c ∷ s) j last =
    let rest = run_from s (j + 1) (if is_digit c then j else last) in
    if is_digit c || c == b' ' || c == b'-' then rest else (j, last)

digits_of : Text → Text
unfolding is_digit
digits_of [] = []
digits_of (c ∷ s) = let rest = digits_of s in if is_digit c then c ∷ rest else rest

unfoldable pub is_card : Text → Bool
unfolding luhn_ok
is_card digits = leb 13 (length digits) && leb (length digits) 19 && luhn_ok digits

begins_digit : Text → Bool
begins_digit [] = false
begins_digit (c ∷ _) = is_digit c

-- The outer loop from position `i`.
card_spans_from : ℕ → Text → ℕ → List Span
unfolding run_from digits_of is_card begins_digit is_digit
card_spans_from zero text i = []
card_spans_from (suc fuel) text i =
    let (j, last) = run_from (drop i text) i i in
    let later = card_spans_from fuel text j in
    let next = card_spans_from fuel text (i + 1) in
    if ltb i (length text)
    then (if begins_digit (drop i text)
        then (if is_card (digits_of (slice text i j)) then (i, last + 1) ∷ later else later)
        else next)
    else []

unfoldable pub find_card_spans : Text → List Span
unfolding card_spans_from
find_card_spans text = card_spans_from (suc (length text)) text 0

known_spans : Text → List Text → List Span
unfolding find_all_ci
known_spans text [] = []
known_spans text (v ∷ known) = find_all_ci text v ++ known_spans text known

-- The earlier start comes first, and of two with one start the longer span.
precedes : Span → Span → Bool
precedes (s, e) (s', e') = ltb s s' || s == s' && ltb e' e

-- A stable sort.
place : Span → List Span → List Span
unfolding precedes
place a [] = a ∷ []
place a (b ∷ spans) = let rest = b ∷ place a spans in if precedes b a then rest else a ∷ b ∷ spans

unfoldable pub sort_spans : List Span → List Span
unfolding place
sort_spans [] = []
sort_spans (a ∷ spans) = place a (sort_spans spans)

-- The candidates of `tokenize`, in the order in which they are taken.
unfoldable pub candidates : List Text → Text → List Span
unfolding known_spans find_card_spans sort_spans
candidates known text = sort_spans (known_spans text known ++ find_card_spans text)
