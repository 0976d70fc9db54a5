-- ===== src/Vault/Spans/Forward.antt =====
-- No span of crates/guardian-broker/src/vault.rs ends before it starts.
use project_guardian.Common.{
  ℕ, zero, suc, ◌+◌, ◌≤◌, List, [], ◌∷◌, ◌++◌, Text, length, All, arith, drop,
}
use project_guardian.Vault.Spans.{
  Span, find_ci_from, find_all_ci, run_from, card_spans_from, find_card_spans, known_spans, place,
  sort_spans, candidates,
}

-- The span does not end before it starts.
abbrev pub IsForward : Span → Type 0
IsForward (s, e) = s ≤ e

All-append {ℓ} :
    {A : Type ℓ} (P : A → Type 0) (xs ys : List A) → All P xs → All P ys → All P (xs ++ ys)
All-append P [] ys h k = k
All-append P (x ∷ xs) ys h k = (h.0, All-append P xs ys h.1 k)

find_ci_from-IsForward :
    (fuel : ℕ) (text needle : Text) (i : ℕ) → All IsForward (find_ci_from fuel text needle i)
unfolding find_ci_from
find_ci_from-IsForward zero text needle i = tt
find_ci_from-IsForward (suc fuel) text needle i = ground (
  arith,
  find_ci_from-IsForward fuel text needle (i + length needle),
  find_ci_from-IsForward fuel text needle (i + 1),
)

find_all_ci-IsForward : (text needle : Text) → All IsForward (find_all_ci text needle)
unfolding find_all_ci
find_all_ci-IsForward text needle =
    ground (arith, find_ci_from-IsForward (suc (length text)) text needle 0)

known_spans-IsForward : (text : Text) (known : List Text) → All IsForward (known_spans text known)
unfolding known_spans
known_spans-IsForward text [] = tt
known_spans-IsForward text (v ∷ known) =
    All-append IsForward (find_all_ci text v) (known_spans text known)
      (find_all_ci-IsForward text v) (known_spans-IsForward text known)

le-run_from : (s : Text) (j last i : ℕ) → i ≤ j → i ≤ last → i ≤ (run_from s j last).1
unfolding run_from
le-run_from [] j last i h k = k
le-run_from (c ∷ s) j last i h k =
    ground (arith, le-run_from s (j + 1) j i, le-run_from s (j + 1) last i)

card_spans_from-IsForward :
    (fuel : ℕ) (text : Text) (i : ℕ) → All IsForward (card_spans_from fuel text i)
unfolding card_spans_from
card_spans_from-IsForward zero text i = tt
card_spans_from-IsForward (suc fuel) text i = ground (
  arith,
  le-run_from (drop i text) i i i,
  card_spans_from-IsForward fuel text (run_from (drop i text) i i).0,
  card_spans_from-IsForward fuel text (i + 1),
)

place-IsForward :
    (a : Span) (spans : List Span)
    → IsForward a
    → All IsForward spans
    → All IsForward (place a spans)
unfolding place
place-IsForward a [] h k = (h, tt)
place-IsForward a (b ∷ spans) h k = ground (arith, place-IsForward a spans)

sort_spans-IsForward : (spans : List Span) → All IsForward spans → All IsForward (sort_spans spans)
unfolding sort_spans
sort_spans-IsForward [] h = tt
sort_spans-IsForward (a ∷ spans) h =
    place-IsForward a (sort_spans spans) h.0 (sort_spans-IsForward spans h.1)

pub candidates-IsForward : (known : List Text) (text : Text) → All IsForward (candidates known text)
unfolding candidates find_card_spans
candidates-IsForward known text =
    sort_spans-IsForward (known_spans text known ++ find_card_spans text) (
      All-append IsForward (known_spans text known) (find_card_spans text)
        (known_spans-IsForward text known) (card_spans_from-IsForward (suc (length text)) text 0))
