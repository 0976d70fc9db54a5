-- ===== src/Cli/Cockpit/Preview.antt =====
-- The preview of the cockpit of crates/guardian-cli/src/tui.rs, in which no daemon is contacted.
use project_guardian.Common.{
  ◌||◌, if-cases, ℕ, Bool, true, false, Option, none, some, List, [], ◌∷◌, Text, ◌≡◌, refl, ◌∙◌,
  arith, trim,
}
use project_guardian.Daemon.Control.{PendingView}
use project_guardian.Cli.Cockpit.{
  App, Client, Session, View, approvals, history, new_token, protect, ids, item_at, clamped,
  demo_shown, refresh, act_on, without, resolve, resolve_selected, deny_all, panic_all,
  submit_token, is_history, is_empty, move_selection, scroll_history,
}
use project_guardian.Cli.Cockpit.Buttons.{Rect, draw}
use project_guardian.Cli.Cockpit.Events.{
  KeyCode, esc, backspace, enter, tab, down, up, char, MouseKind, left_down, scroll_down, scroll_up,
  Event, key, mouse, Round, tick, happens, Command, quits, moves, answers, panics, refreshes,
  opens_form, opens_protect, switches, nothing, shows, to_protect, to_other_screen, spun,
  command_of, hit_at, clicked, remove_last, protect_value, move_on, handle_command, handle_key,
  handle_form_key, handle_protect_key, handle_mouse, handle_event, handle_round,
}
use project_guardian.Cli.Cockpit.Loop.{drawn, rounds, first_app, run_loop}

-- Nothing is sent and nothing outside is touched, and the preview goes on.
abbrev pub Quiet : {W : Type 0} → Session W → Session W → Type 0
Quiet s t = (t.sent ≡ s.sent) × (t.world ≡ s.world) × (t.app.demo ≡ true)

clamped-demo : (a : App) → (clamped a).demo ≡ a.demo
unfolding clamped
clamped-demo a = ground arith

move_on-demo : (downward : Bool) (a : App) → (move_on downward a).demo ≡ a.demo
unfolding move_on move_selection scroll_history
move_on-demo downward a = ground arith

module _ {W : Type 0} (client : Client W) (decimal : ℕ → Text) where
  refresh-Quiet : (s : Session W) → s.app.demo ≡ true → Quiet s (refresh client decimal s)
  unfolding refresh demo_shown
  refresh-Quiet s h =
      if-cases (Quiet s) s.app.demo _ _ (λ _. (refl, refl, clamped-demo s.app ∙ h))
        (λ live. absurd (ground (arith, h, live)))

  act_on-Quiet :
      (id : ℕ) (allow : Bool) (s : Session W)
      → s.app.demo ≡ true
      → Quiet s (act_on client decimal id allow s)
  unfolding act_on demo_shown
  act_on-Quiet id allow s h =
      if-cases (Quiet s) s.app.demo _ _
        (λ _. (refl, refl, clamped-demo (record s.app { pending = without id s.app.pending }) ∙ h))
        (λ live. absurd (ground (arith, h, live)))

  resolve-Quiet :
      (item : Option PendingView) (allow : Bool) (s : Session W)
      → s.app.demo ≡ true
      → Quiet s (resolve client decimal item allow s)
  unfolding resolve
  resolve-Quiet none allow s h = (refl, refl, h)
  resolve-Quiet (some item) allow s h = act_on-Quiet item.id allow s h

  deny_all-Quiet :
      (all : List ℕ) (s : Session W) → s.app.demo ≡ true → Quiet s (deny_all client decimal all s)
  unfolding deny_all
  deny_all-Quiet [] s h = (refl, refl, h)
  deny_all-Quiet (id ∷ rest) s h =
      let one = act_on-Quiet id false s h in
      let more = deny_all-Quiet rest (act_on client decimal id false s) one.2 in
      (more.0 ∙ one.0, more.1 ∙ one.1, more.2)

  submit_token-Quiet : (s : Session W) → s.app.demo ≡ true → Quiet s (submit_token client decimal s)
  unfolding submit_token
  submit_token-Quiet s h =
      if-cases (Quiet s) (is_empty (trim s.app.form.target) || is_empty s.app.form.secret) _ _
        (λ _. (refl, refl, h))
        (λ _.
          if-cases (Quiet s) s.app.demo _ _ (λ _. (refl, refl, h))
            (λ live. absurd (ground (arith, h, live))))

  remove_last-Quiet : (s : Session W) → s.app.demo ≡ true → Quiet s (remove_last client decimal s)
  unfolding remove_last
  remove_last-Quiet s h =
      if-cases (Quiet s) s.app.demo _ _ (λ _. (refl, refl, h))
        (λ live. absurd (ground (arith, h, live)))

  protect_value-Quiet :
      (value : Text) (s : Session W)
      → s.app.demo ≡ true
      → Quiet s (protect_value client decimal value s)
  unfolding protect_value
  protect_value-Quiet value s h =
      if-cases (Quiet s) s.app.demo _ _ (λ _. (refl, refl, h))
        (λ live. absurd (ground (arith, h, live)))

  handle_form_key-Quiet :
      (code : KeyCode) (s : Session W)
      → s.app.demo ≡ true
      → Quiet s (handle_form_key client decimal code s)
  unfolding handle_form_key
  handle_form_key-Quiet esc s h = (refl, refl, h)
  handle_form_key-Quiet tab s h = (refl, refl, h)
  handle_form_key-Quiet backspace s h = (refl, refl, h)
  handle_form_key-Quiet enter s h = submit_token-Quiet s h
  handle_form_key-Quiet (char c) s h = (refl, refl, h)
  handle_form_key-Quiet down s h = (refl, refl, h)
  handle_form_key-Quiet up s h = (refl, refl, h)
  handle_form_key-Quiet KeyCode.other s h = (refl, refl, h)

  handle_protect_key-Quiet :
      (code : KeyCode) (s : Session W)
      → s.app.demo ≡ true
      → Quiet s (handle_protect_key client decimal code s)
  unfolding handle_protect_key
  handle_protect_key-Quiet esc s h = (refl, refl, h)
  handle_protect_key-Quiet backspace s h =
      if-cases (Quiet s) (is_empty s.app.protect_input) _ _ (λ _. remove_last-Quiet s h)
        (λ _. (refl, refl, h))
  handle_protect_key-Quiet enter s h =
      if-cases (Quiet s) (is_empty (trim s.app.protect_input)) _ _ (λ _. (refl, refl, h))
        (λ _. protect_value-Quiet (trim s.app.protect_input) s h)
  handle_protect_key-Quiet (char c) s h = (refl, refl, h)
  handle_protect_key-Quiet tab s h = (refl, refl, h)
  handle_protect_key-Quiet down s h = (refl, refl, h)
  handle_protect_key-Quiet up s h = (refl, refl, h)
  handle_protect_key-Quiet KeyCode.other s h = (refl, refl, h)

  handle_command-Quiet :
      (command : Command) (s : Session W)
      → s.app.demo ≡ true
      → Quiet s (handle_command client decimal command s)
  unfolding handle_command resolve_selected panic_all move_on move_selection scroll_history
  handle_command-Quiet quits s h = (refl, refl, h)
  handle_command-Quiet (moves downward) s h = (refl, refl, move_on-demo downward s.app ∙ h)
  handle_command-Quiet (answers allow) s h =
      resolve-Quiet (item_at s.app.selected s.app.pending) allow s h
  handle_command-Quiet panics s h =
      let (sent, world, demo) = deny_all-Quiet (ids s.app.pending) s h in (sent, world, demo)
  handle_command-Quiet refreshes s h = refresh-Quiet s h
  handle_command-Quiet opens_form s h = (refl, refl, h)
  handle_command-Quiet opens_protect s h = refresh-Quiet (shows to_protect s) h
  handle_command-Quiet switches s h = refresh-Quiet (shows to_other_screen s) h
  handle_command-Quiet nothing s h = (refl, refl, h)

  handle_key-Quiet :
      (view : View) (code : KeyCode) (s : Session W)
      → s.app.demo ≡ true
      → Quiet s (handle_key client decimal view code s)
  unfolding handle_key
  handle_key-Quiet new_token code s h = handle_form_key-Quiet code s h
  handle_key-Quiet protect code s h = handle_protect_key-Quiet code s h
  handle_key-Quiet approvals code s h = handle_command-Quiet (command_of code) s h
  handle_key-Quiet history code s h = handle_command-Quiet (command_of code) s h

  clicked-Quiet :
      (hit : Option (ℕ × Bool)) (s : Session W)
      → s.app.demo ≡ true
      → Quiet s (clicked client decimal hit s)
  unfolding clicked
  clicked-Quiet none s h = (refl, refl, h)
  clicked-Quiet (some (id, allow)) s h = act_on-Quiet id allow s h

  handle_mouse-Quiet :
      (kind : MouseKind) (row column : ℕ) (s : Session W)
      → s.app.demo ≡ true
      → Quiet s (handle_mouse client decimal kind row column s)
  unfolding handle_mouse scroll_history
  handle_mouse-Quiet left_down row column s h = clicked-Quiet (hit_at s.app.hits row column) s h
  handle_mouse-Quiet scroll_down row column s h =
      if-cases (Quiet s) (is_history s.app.view) _ _ (λ _. (refl, refl, h)) (λ _. (refl, refl, h))
  handle_mouse-Quiet scroll_up row column s h =
      if-cases (Quiet s) (is_history s.app.view) _ _ (λ _. (refl, refl, h)) (λ _. (refl, refl, h))
  handle_mouse-Quiet MouseKind.other row column s h = (refl, refl, h)

  -- A round of a preview sends nothing and touches nothing outside.
  pub handle_round-Quiet :
      (round : Round) (s : Session W)
      → s.app.demo ≡ true
      → Quiet s (handle_round client decimal round s)
  unfolding handle_round handle_event
  handle_round-Quiet tick s h = refresh-Quiet (shows spun s) h
  handle_round-Quiet (happens (key true code)) s h = handle_key-Quiet s.app.view code s h
  handle_round-Quiet (happens (key false code)) s h = (refl, refl, h)
  handle_round-Quiet (happens (mouse kind row column)) s h = handle_mouse-Quiet kind row column s h
  handle_round-Quiet (happens Event.other) s h = (refl, refl, h)

  module _ (inner : Rect → Rect) where
    rounds-Quiet :
        (steps : List (Rect × Round)) (s : Session W)
        → s.app.demo ≡ true
        → Quiet s (rounds client decimal inner steps s)
    unfolding rounds drawn draw
    rounds-Quiet [] s h = (refl, refl, h)
    rounds-Quiet ((area, round) ∷ rest) s h =
        let one = handle_round-Quiet round (drawn client decimal inner area s) h in
        let more =
          rounds-Quiet rest (handle_round client decimal round (drawn client decimal inner area s))
            one.2 in
        if-cases (Quiet s) s.app.quit _ _ (λ _. (refl, refl, h))
          (λ _. (more.0 ∙ one.0, more.1 ∙ one.1, more.2))

    -- Whatever happens in a preview, no answer is sent, and neither the daemon nor the keychain is
    -- touched.
    pub run_loop-Quiet :
        (world : W) (steps : List (Rect × Round))
        → ((run_loop client decimal inner true world steps).sent ≡ [])
          × ((run_loop client decimal inner true world steps).world ≡ world)
    unfolding run_loop first_app
    run_loop-Quiet world steps =
        let s : Session W = record { app = first_app true; world = world; sent = [] } in
        let first = refresh-Quiet s refl in
        let rest = rounds-Quiet steps (refresh client decimal s) first.2 in
        (rest.0 ∙ first.0, rest.1 ∙ first.1)
