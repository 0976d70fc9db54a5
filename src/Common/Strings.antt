-- ===== src/Common/Strings.antt =====
-- Texts as the bytes of their UTF-8 encoding, with the operations of Rust's `str` that the crates use.
use Prim.Native.Nat.{◌-◌, ℕ, zero, suc, ◌+◌, ◌/◌, ◌%◌}
use Prim.Native.Char.{code}
use Prim.Native.String.{String}
use mathlib.Core.Path.{◌≡◌, refl}
use mathlib.Core.Logic.{◌≢◌, ◌↔◌}
use mathlib.Core.Bool.{Bool, true, false, ◌&&◌, ◌||◌}
use mathlib.Core.List.{reverse, List, [], ◌∷◌, ◌++◌, map}
use native.Mathlib.Omega.{arith}
use project_guardian.Common.Lists.{length, drop, All}
use project_guardian.Common.Tests.{ltb, leb, ◌==◌, if◌then◌else◌}

abbrev pub Text : Type 0
Text = List ℕ

-- The UTF-8 encoding of one code point.
utf8 : ℕ → Text
utf8 c =
    if ltb c 0x80
    then c ∷ []
    else if ltb c 0x800
    then (0xC0 + c / 64) ∷ (0x80 + c % 64) ∷ []
    else if ltb c 0x10000
    then (0xE0 + c / 4096) ∷ (0x80 + c / 64 % 64) ∷ (0x80 + c % 64) ∷ []
    else (0xF0 + c / 262144) ∷ (0x80 + c / 4096 % 64) ∷ (0x80 + c / 64 % 64) ∷ (0x80 + c % 64) ∷ []

-- The bytes of a literal.
unfoldable pub bytes : String → Text
unfolding utf8
bytes String.[] = []
bytes (String.◌∷◌ c s) = utf8 (code c) ++ bytes s

-- `==` on texts
unfoldable pub text_eq : Text → Text → Bool
text_eq [] [] = true
text_eq (a ∷ s) (b ∷ t) = a == b && text_eq s t
text_eq _ _ = false

pub text_eq_iff : (s t : Text) → (text_eq s t ≡ true) ↔ (s ≡ t)
unfolding text_eq
text_eq_iff [] [] = ground arith
text_eq_iff [] (b ∷ t) = ground arith
text_eq_iff (a ∷ s) [] = ground arith
text_eq_iff (a ∷ s) (b ∷ t) = ground (arith, text_eq_iff s t)

pub text_eq_refl : (s : Text) → text_eq s s ≡ true
text_eq_refl s = (text_eq_iff s s).1 refl

-- `u8::to_ascii_lowercase`
unfoldable pub lower : ℕ → ℕ
lower c = if leb b'A' c && leb c b'Z' then c + 32 else c

unfoldable pub to_ascii_lowercase : Text → Text
unfolding lower
to_ascii_lowercase s = map lower s

unfoldable pub eq_ignore_ascii_case : Text → Text → Bool
unfolding to_ascii_lowercase text_eq
eq_ignore_ascii_case s t = text_eq (to_ascii_lowercase s) (to_ascii_lowercase t)

pub eq_ignore_ascii_case_refl : (s : Text) → eq_ignore_ascii_case s s ≡ true
unfolding eq_ignore_ascii_case
eq_ignore_ascii_case_refl s = text_eq_refl (to_ascii_lowercase s)

unfoldable pub starts_with : Text → Text → Bool
starts_with s [] = true
starts_with [] (p ∷ ps) = false
starts_with (c ∷ s) (p ∷ ps) = c == p && starts_with s ps

-- `s.contains(p)`
unfoldable pub contains : Text → Text → Bool
unfolding starts_with
contains [] p = starts_with [] p
contains (c ∷ s) p = starts_with (c ∷ s) p || contains s p

-- The text is among the listed ones.
unfoldable pub member : Text → List Text → Bool
unfolding text_eq
member s [] = false
member s (t ∷ ts) = text_eq s t || member s ts

pub member-eq-false : (s : Text) (ts : List Text) → (member s ts ≡ false) ↔ All (λ t. s ≢ t) ts
unfolding member
member-eq-false s [] = ground arith
member-eq-false s (t ∷ ts) = ground (arith, text_eq_iff s t, member-eq-false s ts)

-- The bytes of the white space character that the text begins with, 0 if there is none.
unfoldable pub leading_space : Text → ℕ
leading_space (a ∷ b ∷ c ∷ s) =
    if leb 9 a && leb a 13 || a == 32
    then 1
    else if a == 0xC2 && (b == 0x85 || b == 0xA0)
    then 2
    else if a == 0xE1 && b == 0x9A && c == 0x80
        || a == 0xE2
          && b == 0x80
          && (leb 0x80 c && leb c 0x8A || c == 0xA8 || c == 0xA9 || c == 0xAF)
        || a == 0xE2 && b == 0x81 && c == 0x9F
        || a == 0xE3 && b == 0x80 && c == 0x80
    then 3
    else 0
leading_space (a ∷ b ∷ []) =
    if leb 9 a && leb a 13 || a == 32
    then 1
    else if a == 0xC2 && (b == 0x85 || b == 0xA0)
    then 2
    else 0
leading_space (a ∷ []) = if leb 9 a && leb a 13 || a == 32 then 1 else 0
leading_space [] = 0

-- The same of a text whose bytes are in reverse.
unfoldable pub trailing_space : Text → ℕ
trailing_space (c ∷ b ∷ a ∷ s) =
    if leb 9 c && leb c 13 || c == 32
    then 1
    else if b == 0xC2 && (c == 0x85 || c == 0xA0)
    then 2
    else if a == 0xE1 && b == 0x9A && c == 0x80
        || a == 0xE2
          && b == 0x80
          && (leb 0x80 c && leb c 0x8A || c == 0xA8 || c == 0xA9 || c == 0xAF)
        || a == 0xE2 && b == 0x81 && c == 0x9F
        || a == 0xE3 && b == 0x80 && c == 0x80
    then 3
    else 0
trailing_space (c ∷ b ∷ []) =
    if leb 9 c && leb c 13 || c == 32
    then 1
    else if b == 0xC2 && (c == 0x85 || c == 0xA0)
    then 2
    else 0
trailing_space (c ∷ []) = if leb 9 c && leb c 13 || c == 32 then 1 else 0
trailing_space [] = 0

-- Drops what the measure finds until it finds nothing; the length of the text is rounds enough.
unfoldable pub strip : ℕ → (Text → ℕ) → Text → Text
strip zero measure s = s
strip (suc fuel) measure s =
    let rest = strip fuel measure (drop (measure s) s) in if measure s == 0 then s else rest

-- `str::trim`
unfoldable pub trim : Text → Text
unfolding leading_space trailing_space strip
trim s =
    let front = strip (length s) leading_space s in
    reverse (strip (length front) trailing_space (reverse front))

-- A character of the text is white space.
unfoldable pub has_space : Text → Bool
unfolding leading_space
has_space [] = false
has_space (c ∷ s) = ltb 0 (leading_space (c ∷ s)) || has_space s

word_of : Text → List Text
word_of [] = []
word_of (c ∷ s) = reverse (c ∷ s) ∷ []

-- The words of a text, with the bytes of white space that are still to be passed and the bytes of the
-- current word in reverse.
words_from : ℕ → Text → Text → List Text
unfolding leading_space word_of
words_from n word [] = word_of word
words_from (suc n) word (c ∷ s) = words_from n word s
words_from zero word (c ∷ s) =
    let same = words_from zero (c ∷ word) s in
    let next = words_from (leading_space (c ∷ s) - 1) [] s in
    if leading_space (c ∷ s) == 0 then same else word_of word ++ next

-- `str::split_whitespace`
unfoldable pub split_whitespace : Text → List Text
unfolding words_from
split_whitespace s = words_from zero [] s

starts_with-append : (p t : Text) → starts_with (p ++ t) p ≡ true
unfolding starts_with
starts_with-append [] t = refl
starts_with-append (c ∷ p) t = ground (arith, starts_with-append p t)

starts_with-contains : (s p : Text) → starts_with s p ≡ true → contains s p ≡ true
unfolding contains
starts_with-contains [] p h = h
starts_with-contains (c ∷ s) p h = rw h

-- A text contains what stands anywhere in it.
pub contains-append : (s p t : Text) → contains (s ++ (p ++ t)) p ≡ true
unfolding contains
contains-append [] p t = starts_with-contains (p ++ t) p (starts_with-append p t)
contains-append (c ∷ s) p t = ground (arith, contains-append s p t)
