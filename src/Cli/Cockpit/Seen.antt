-- ===== src/Cli/Cockpit/Seen.antt =====
-- What a human asked for when the cockpit of crates/guardian-cli/src/tui.rs approves an action.
use project_guardian.Common.{
  ◌≤◌, subst, ℕ, ◌+◌, ◌^◌, ◌<◌, Bool, true, false, Option, none, some, List, [], ◌∷◌, ◌++◌, Text,
  text_eq_iff, ◌≡◌, ◌⊎◌, refl, ap, inl, inr, arith, All, if-cases,
}
use project_guardian.Daemon.Control.{PendingView}
use project_guardian.Cli.Cockpit.{
  App, Client, Session, View, approvals, history, new_token, protect, item_at, ids,
}
use project_guardian.Cli.Cockpit.Buttons.{Insets, Rect, draw}
use project_guardian.Cli.Cockpit.Events.{
  KeyCode, esc, backspace, enter, tab, down, up, char, MouseKind, left_down, scroll_down, scroll_up,
  Event, key, mouse, Round, tick, happens, Command, quits, moves, answers, panics, refreshes,
  opens_form, opens_protect, switches, nothing, command_of, is_char, hit_at, handle_round,
}
use project_guardian.Cli.Cockpit.Loop.{drawn}
use project_guardian.Cli.Cockpit.Asking.{
  of_command-keyed, of_click-hit_at, of_selected, denials, of_command, of_key, of_click, given,
  answers_of,
}
use project_guardian.Cli.Cockpit.Answers.{handle_round-answers_of}
use project_guardian.Cli.Cockpit.Clicks.{IsCard, draw-IsCard}

-- The key `a` where no form is open, with the action selected.
abbrev pub IsKeyed : Round → App → ℕ → Type 0
IsKeyed round a id =
    (round ≡ happens (key true (char (b'a' ∷ []))))
    × ((a.view ≡ approvals) ⊎ (a.view ≡ history))
    × (item : PendingView) × (item_at a.selected a.pending ≡ some item)
    × (item.id ≡ id)

-- A left click, with the action's card drawn there.
abbrev pub IsClicked : Rect → Round → App → ℕ → Type 0
IsClicked area round a id =
    (row : ℕ) × (column : ℕ) × (round ≡ happens (mouse left_down row column))
    × (a.view ≡ approvals)
    × IsCard area a.pending row column (id, true)

-- An answer that approves was asked for.
abbrev pub IsAsked : Rect → Round → App → ℕ × Bool → Type 0
IsAsked area round a (id, allow) = (allow ≡ false) ⊎ IsKeyed round a id ⊎ IsClicked area round a id

char_lem : (b : ℕ) (c : Text) → is_char b c ≡ true → c ≡ b ∷ []
unfolding is_char
char_lem b c h = (text_eq_iff c (b ∷ [])).0 h

command_of_lem : (code : KeyCode) → command_of code ≡ answers true → code ≡ char (b'a' ∷ [])
unfolding command_of
command_of_lem esc h = ground arith
command_of_lem tab h = ground arith
command_of_lem up h = ground arith
command_of_lem down h = ground arith
command_of_lem enter h = ground arith
command_of_lem backspace h = ground arith
command_of_lem KeyCode.other h = ground arith
command_of_lem (char c) h = ground (arith, h, char_lem b'a' c)

denials-allow :
    (P : ℕ × Bool → Type 0) → ((id : ℕ) → P (id, false)) → (all : List ℕ) → All P (denials all)
denials-allow P h [] = tt
denials-allow P h (id ∷ rest) = (h id, denials-allow P h rest)

module _ {W : Type 0} (client : Client W) (decimal : ℕ → Text) (inner : Rect → Rect) (area : Rect)
    (inside : Insets inner) (wide : 27 ≤ area.width) (low : area.y + area.height + 5 < 2 ^ 16)
    (narrow : area.x + area.width < 2 ^ 16) where
  of_selected-IsAsked :
      (allow : Bool) (code : KeyCode) (a : App) (o : Option PendingView)
      → item_at a.selected a.pending ≡ o
      → (a.view ≡ approvals) ⊎ (a.view ≡ history)
      → command_of code ≡ answers allow
      → All (IsAsked area (happens (key true code)) a) (of_selected allow o)
  of_selected-IsAsked allow code a none e shown c = tt
  of_selected-IsAsked false code a (some item) e shown c = (inl refl, tt)
  of_selected-IsAsked true code a (some item) e shown c =
      (inr (inl (ap (λ k. happens (key true k)) (command_of_lem code c), shown, item, e, refl)), tt)

  of_command-IsAsked :
      (command : Command) (code : KeyCode) (a : App)
      → (a.view ≡ approvals) ⊎ (a.view ≡ history)
      → command_of code ≡ command
      → All (IsAsked area (happens (key true code)) a) (of_command command a)
  of_command-IsAsked (answers allow) code a shown c =
      of_selected-IsAsked allow code a (item_at a.selected a.pending) refl shown c
  of_command-IsAsked panics code a shown c = denials-allow _ (λ id. inl refl) (ids a.pending)
  of_command-IsAsked quits code a shown c = tt
  of_command-IsAsked (moves downward) code a shown c = tt
  of_command-IsAsked refreshes code a shown c = tt
  of_command-IsAsked opens_form code a shown c = tt
  of_command-IsAsked opens_protect code a shown c = tt
  of_command-IsAsked switches code a shown c = tt
  of_command-IsAsked nothing code a shown c = tt

  of_key-IsAsked :
      (view : View) (code : KeyCode) (a : App)
      → a.view ≡ view
      → All (IsAsked area (happens (key true code)) a) (of_key view code a)
  of_key-IsAsked approvals code a v =
      subst (All (IsAsked area (happens (key true code)) a)) (of_command-keyed code a)
        (of_command-IsAsked (command_of code) code a (inl v) refl)
  of_key-IsAsked history code a v =
      subst (All (IsAsked area (happens (key true code)) a)) (of_command-keyed code a)
        (of_command-IsAsked (command_of code) code a (inr v) refl)
  of_key-IsAsked new_token code a v = tt
  of_key-IsAsked protect code a v = tt

  of_click-IsAsked :
      (row column : ℕ) (a : App) (hit : Option (ℕ × Bool))
      → hit_at (draw inner area a).hits row column ≡ hit
      → All (IsAsked area (happens (mouse left_down row column)) a) (of_click hit)
  of_click-IsAsked row column a none e = tt
  of_click-IsAsked row column a (some (id, false)) e = (inl refl, tt)
  of_click-IsAsked row column a (some (id, true)) e =
      let (v, card) = draw-IsCard inner area inside wide low narrow a row column (id, true) e in
      (inr (inr (row, column, refl, v, card)), tt)

  given-IsAsked :
      (round : Round) (a : App) → All (IsAsked area round a) (given round (draw inner area a))
  unfolding draw
  given-IsAsked tick a = tt
  given-IsAsked (happens (key true code)) a = of_key-IsAsked a.view code (draw inner area a) refl
  given-IsAsked (happens (key false code)) a = tt
  given-IsAsked (happens (mouse left_down row column)) a =
      subst (All (IsAsked area (happens (mouse left_down row column)) a))
        (of_click-hit_at (draw inner area a).hits row column) (of_click-IsAsked row column a _ refl)
  given-IsAsked (happens (mouse scroll_down row column)) a = tt
  given-IsAsked (happens (mouse scroll_up row column)) a = tt
  given-IsAsked (happens (mouse MouseKind.other row column)) a = tt
  given-IsAsked (happens Event.other) a = tt

  -- Where the body of the screen has at least 27 columns and ends before the limit of `u16` in both
  -- directions, with a card's height to spare below it, and the inside of a bordered rectangle that has a
  -- column and a row loses the first ones: what a round sends after the screen was drawn approves an action
  -- only if it was the selected one when `a` was pressed where no form is open, or its card was drawn with
  -- all its rows and both labels on the screen of approvals under the left click, which is on that card's
  -- label that allows.
  pub handle_round-IsAsked :
      (round : Round) (s : Session W)
      → (new : List (ℕ × Bool)) × ((handle_round client decimal round
            (drawn client decimal inner area s)).sent
          ≡ s.sent ++ new)
        × All (IsAsked area round s.app) new
  unfolding drawn
  handle_round-IsAsked round s = (
    answers_of round (draw inner area s.app),
    handle_round-answers_of client decimal round (drawn client decimal inner area s),
    if-cases (All (IsAsked area round s.app)) (draw inner area s.app).demo [] _ (λ _. tt)
        (λ _. given-IsAsked round s.app),
  )
