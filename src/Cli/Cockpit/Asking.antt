-- ===== src/Cli/Cockpit/Asking.antt =====
-- Which answers the keys and the clicks of crates/guardian-cli/src/tui.rs ask for, as a table of the keys and
-- of the labels on the screen.
use project_guardian.Common.{
  ◌&&◌, ◌==◌, leb, ltb, text_eq, text_eq_iff, subst, Bool-cases, inl, inr, ℕ, Bool, true, false,
  Option, none, some, List, [], ◌∷◌, Text, ◌≡◌, refl, sym, arith, if◌then◌else◌,
}
use project_guardian.Daemon.Control.{PendingView}
use project_guardian.Cli.Cockpit.{Hit, App, View, approvals, history, ids, item_at}
use project_guardian.Cli.Cockpit.Events.{
  is_char, within, KeyCode, esc, backspace, enter, tab, down, up, char, left_down, key, mouse,
  Round, happens, Command, answers, panics, refreshes, opens_form, opens_protect, nothing,
  command_of, hit_at,
}

abbrev pub of_selected : Bool → Option PendingView → List (ℕ × Bool)
of_selected allow none = []
of_selected allow (some item) = (item.id, allow) ∷ []

abbrev pub denials : List ℕ → List (ℕ × Bool)
denials [] = []
denials (id ∷ rest) = (id, false) ∷ denials rest

abbrev pub of_command : Command → App → List (ℕ × Bool)
of_command (answers allow) a = of_selected allow (item_at a.selected a.pending)
of_command panics a = denials (ids a.pending)
of_command _ a = []

-- The keys that answer: `a` and `d` the selected action, and `p` denies all.
abbrev pub of_letter : Text → App → List (ℕ × Bool)
of_letter c a =
    if text_eq c (b'a' ∷ [])
    then of_selected true (item_at a.selected a.pending)
    else if text_eq c (b'd' ∷ [])
    then of_selected false (item_at a.selected a.pending)
    else if text_eq c (b'p' ∷ [])
    then denials (ids a.pending)
    else []

abbrev pub keyed : KeyCode → App → List (ℕ × Bool)
keyed (char c) a = of_letter c a
keyed _ a = []

abbrev pub of_key : View → KeyCode → App → List (ℕ × Bool)
of_key approvals code a = keyed code a
of_key history code a = keyed code a
of_key _ code a = []

-- The labels on the screen, each with its row, its first column, the column behind it, and its answer.
abbrev pub Label : Type 0
Label = (ℕ × ℕ × ℕ) × (ℕ × Bool)

abbrev pub labels_of : List Hit → List Label
labels_of [] = []
labels_of (hit ∷ hits) =
    ((hit.row, hit.allow.0, hit.allow.1), (hit.id, true))
    ∷ ((hit.row, hit.deny.0, hit.deny.1), (hit.id, false))
    ∷ labels_of hits

-- The answer of the first label that covers a place.
abbrev pub under : ℕ → ℕ → List Label → List (ℕ × Bool)
under row column [] = []
under row column (((at, first, behind), answer) ∷ labels) =
    if (row == at) && (leb first column && ltb column behind)
    then answer ∷ []
    else under row column labels

abbrev pub of_click : Option (ℕ × Bool) → List (ℕ × Bool)
of_click none = []
of_click (some answer) = answer ∷ []

pub of_click-hit_at :
    (hits : List Hit) (row column : ℕ)
    → of_click (hit_at hits row column) ≡ under row column (labels_of hits)
unfolding hit_at within
of_click-hit_at [] row column = refl
of_click-hit_at (hit ∷ hits) row column = ground (arith, of_click-hit_at hits row column)

letter_lem :
    (c : Text) (a : App) (b : ℕ)
    → of_command (command_of (char (b ∷ []))) a ≡ of_letter (b ∷ []) a
    → is_char b c ≡ true
    → of_command (command_of (char c)) a ≡ of_letter c a
unfolding is_char
letter_lem c a b h e =
    subst (λ t. of_command (command_of (char t)) a ≡ of_letter t a)
      (sym ((text_eq_iff c (b ∷ [])).0 e)) h

-- The other letters answer nothing.
silent_lem :
    (r n v : Bool) (a : App)
    → of_command
        (if r then refreshes else if n then opens_form else if v then opens_protect else nothing)
        a
      ≡ []
silent_lem true n v a = refl
silent_lem false true v a = refl
silent_lem false false true a = refl
silent_lem false false false a = refl

of_command-of_letter : (c : Text) (a : App) → of_command (command_of (char c)) a ≡ of_letter c a
unfolding command_of is_char
of_command-of_letter c a = elim (Bool-cases (text_eq c (b'q' ∷ []))) [
  | inl e ↦ letter_lem c a b'q' refl e
  | inr q ↦ elim (Bool-cases (text_eq c (b'j' ∷ []))) [
    | inl e ↦ letter_lem c a b'j' refl e
    | inr j ↦ elim (Bool-cases (text_eq c (b'k' ∷ []))) [
      | inl e ↦ letter_lem c a b'k' refl e
      | inr k ↦
          rw (q, j, k)
            (elim (Bool-cases (text_eq c (b'a' ∷ []))) [
              | inl e ↦ rw e refl
              | inr e ↦ rw e (elim (Bool-cases (text_eq c (b'd' ∷ []))) [
                | inl e ↦ rw e refl
                | inr e ↦ rw e (elim (Bool-cases (text_eq c (b'p' ∷ []))) [
                  | inl e ↦ rw e refl
                  | inr e ↦ rw e (
                      silent_lem (text_eq c (b'r' ∷ [])) (text_eq c (b'n' ∷ []))
                        (text_eq c (b'v' ∷ [])) a)
                ])
              ])
            ])
    ]
  ]
]

pub of_command-keyed : (code : KeyCode) (a : App) → of_command (command_of code) a ≡ keyed code a
unfolding command_of
of_command-keyed (char c) a = of_command-of_letter c a
of_command-keyed esc a = refl
of_command-keyed backspace a = refl
of_command-keyed enter a = refl
of_command-keyed tab a = refl
of_command-keyed down a = refl
of_command-keyed up a = refl
of_command-keyed KeyCode.other a = refl

-- The answers that a round gives, if it is not a preview.
abbrev pub given : Round → App → List (ℕ × Bool)
given (happens (key true code)) a = of_key a.view code a
given (happens (mouse left_down row column)) a = under row column (labels_of a.hits)
given _ a = []

abbrev pub answers_of : Round → App → List (ℕ × Bool)
answers_of round a = if a.demo then [] else given round a
