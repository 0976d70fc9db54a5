-- ===== src/Cli/Cockpit/Steady.antt =====
-- The selection of the cockpit of crates/guardian-cli/src/tui.rs stays on an action.
use native.Mathlib.Nat.{mod-lt}
use project_guardian.Common.{
  ◌||◌, trim, if-cases, ℕ, ◌+◌, ◌-◌, ◌%◌, ◌≤◌, Bool, true, false, Option, none, some, List, [], ◌∷◌,
  Text, arith, length, ◌==◌, Result, ok, err,
}
use project_guardian.Daemon.Control.{PendingView, HistoryView}
use project_guardian.Cli.Cockpit.{
  App, Client, Session, View, approvals, history, new_token, protect, ids, item_at, clamped,
  pending_shown, history_shown, vault_shown, refresh_history, refresh_live, demo_shown, refresh,
  act_on, without, resolve, resolve_selected, deny_all, panic_all, submit_token, stored, is_history,
  is_empty, move_selection, scroll_history,
}
use project_guardian.Cli.Cockpit.Buttons.{Rect, draw}
use project_guardian.Cli.Cockpit.Events.{
  KeyCode, esc, backspace, enter, tab, down, up, char, MouseKind, left_down, scroll_down, scroll_up,
  Event, key, mouse, Round, tick, happens, Command, quits, moves, answers, panics, refreshes,
  opens_form, opens_protect, switches, nothing, shows, to_protect, to_other_screen, spun,
  command_of, hit_at, clicked, remove_last, protect_value, unprotected, protected_shown, move_on,
  handle_command, handle_key, handle_form_key, handle_protect_key, handle_mouse, handle_event,
  handle_round,
}
use project_guardian.Cli.Cockpit.Loop.{drawn, rounds, first_app, run_loop}
use project_guardian.Cli.Cockpit.Answers.{answered}

-- The selection is on a pending action, or at the top where there is none.
abbrev pub IsSteady : App → Type 0
IsSteady a = a.selected ≤ length a.pending - 1

clamped-IsSteady : (a : App) → IsSteady (clamped a)
unfolding clamped
clamped-IsSteady a = ground arith

move_selection-IsSteady :
    (downward : Bool) (a : App) → IsSteady a → IsSteady (move_selection downward a)
unfolding move_selection
move_selection-IsSteady downward a h =
    let n = length a.pending in
    if-cases IsSteady (n == 0) _ _ (λ _. h)
      (λ busy.
        let last : (k : ℕ) → k % n ≤ n - 1 =
          λ k. omega (arith, mod-lt k {m = n} (ground (arith, busy))) in
        if-cases IsSteady downward _ _ (λ _. last ((a.selected + 1) % n + n))
          (λ _.
            if-cases IsSteady (a.selected == 0) _ _ (λ _. last (n - 1))
              (λ _. last ((a.selected - 1) % n + n))))

move_on-IsSteady : (downward : Bool) (a : App) → IsSteady a → IsSteady (move_on downward a)
unfolding move_on scroll_history
move_on-IsSteady downward a h =
    if-cases IsSteady (is_history a.view) _ _ (λ _. h) (λ _. move_selection-IsSteady downward a h)

module _ {W : Type 0} (client : Client W) (decimal : ℕ → Text) where
  pending_shown-IsSteady :
      (r : Result (List PendingView) Text) (a : App)
      → IsSteady a
      → IsSteady (pending_shown client decimal r a)
  unfolding pending_shown
  pending_shown-IsSteady (ok pending) a h = clamped-IsSteady (record a { pending = pending })
  pending_shown-IsSteady (err e) a h = h

  history_shown-IsSteady :
      (r : Result (List HistoryView) Text) (a : App) → IsSteady a → IsSteady (history_shown r a)
  unfolding history_shown
  history_shown-IsSteady (ok rows) a h = h
  history_shown-IsSteady (err e) a h = h

  refresh_history-IsSteady :
      (a : App) (w : W) → IsSteady a → IsSteady (refresh_history client decimal a w).0
  unfolding refresh_history
  refresh_history-IsSteady a w h =
      if-cases (λ (t : App × W). IsSteady t.0) (is_history a.view) _ _
        (λ _. history_shown-IsSteady (client.history 50 w).0 a h) (λ _. h)

  vault_shown-IsSteady :
      (r : Result (ℕ × ℕ × List Text) Text) (a : App) → IsSteady a → IsSteady (vault_shown r a)
  unfolding vault_shown
  vault_shown-IsSteady (ok v) a h = h
  vault_shown-IsSteady (err e) a h = h

  stored-IsSteady :
      (site : Text) (r : Result (Unit {0}) Text) (a : App)
      → IsSteady a
      → IsSteady (stored client decimal site r a)
  unfolding stored
  stored-IsSteady site (ok _) a h = h
  stored-IsSteady site (err e) a h = h

  unprotected-IsSteady :
      (r : Result (ℕ × ℕ × List Text) Text) (a : App)
      → IsSteady a
      → IsSteady (unprotected client decimal r a)
  unfolding unprotected vault_shown
  unprotected-IsSteady (ok v) a h = h
  unprotected-IsSteady (err e) a h = h

  protected_shown-IsSteady :
      (r : Result (ℕ × ℕ × List Text) Text) (a : App)
      → IsSteady a
      → IsSteady (protected_shown client decimal r a)
  unfolding protected_shown vault_shown
  protected_shown-IsSteady (ok v) a h = h
  protected_shown-IsSteady (err e) a h = h

  abbrev Steady : Session W → Type 0
  Steady s = IsSteady s.app

  refresh-Steady : (s : Session W) → Steady s → Steady (refresh client decimal s)
  unfolding refresh demo_shown refresh_live
  refresh-Steady s h =
      if-cases Steady s.app.demo _ _ (λ _. clamped-IsSteady s.app)
        (λ _.
          let (r, w) = client.pending s.world in
          let shown = pending_shown client decimal r s.app in
          let (a, w') = refresh_history client decimal shown w in
          vault_shown-IsSteady (client.vault_status w').0 a
            (refresh_history-IsSteady shown w (pending_shown-IsSteady r s.app h)))

  act_on-Steady :
      (id : ℕ) (allow : Bool) (s : Session W) → Steady s → Steady (act_on client decimal id allow s)
  unfolding act_on demo_shown
  act_on-Steady id allow s h =
      if-cases Steady s.app.demo _ _
        (λ _. clamped-IsSteady (record s.app { pending = without id s.app.pending }))
        (λ _. refresh-Steady (answered client decimal id allow s) h)

  resolve-Steady :
      (item : Option PendingView) (allow : Bool) (s : Session W)
      → Steady s
      → Steady (resolve client decimal item allow s)
  unfolding resolve
  resolve-Steady none allow s h = h
  resolve-Steady (some item) allow s h = act_on-Steady item.id allow s h

  deny_all-Steady :
      (all : List ℕ) (s : Session W) → Steady s → Steady (deny_all client decimal all s)
  unfolding deny_all
  deny_all-Steady [] s h = h
  deny_all-Steady (id ∷ rest) s h =
      deny_all-Steady rest (act_on client decimal id false s) (act_on-Steady id false s h)

  handle_command-Steady :
      (command : Command) (s : Session W)
      → Steady s
      → Steady (handle_command client decimal command s)
  unfolding handle_command resolve_selected panic_all
  handle_command-Steady quits s h = h
  handle_command-Steady (moves downward) s h = move_on-IsSteady downward s.app h
  handle_command-Steady (answers allow) s h =
      resolve-Steady (item_at s.app.selected s.app.pending) allow s h
  handle_command-Steady panics s h = deny_all-Steady (ids s.app.pending) s h
  handle_command-Steady refreshes s h = refresh-Steady s h
  handle_command-Steady opens_form s h = h
  handle_command-Steady opens_protect s h = refresh-Steady (shows to_protect s) h
  handle_command-Steady switches s h = refresh-Steady (shows to_other_screen s) h
  handle_command-Steady nothing s h = h

  submit_token-Steady : (s : Session W) → Steady s → Steady (submit_token client decimal s)
  unfolding submit_token stored
  submit_token-Steady s h =
      if-cases Steady (is_empty (trim s.app.form.target) || is_empty s.app.form.secret) _ _ (λ _. h)
        (λ _.
          if-cases Steady s.app.demo _ _ (λ _. h)
            (λ _. stored-IsSteady (trim s.app.form.target) _ s.app h))

  handle_form_key-Steady :
      (code : KeyCode) (s : Session W) → Steady s → Steady (handle_form_key client decimal code s)
  unfolding handle_form_key
  handle_form_key-Steady enter s h = submit_token-Steady s h
  handle_form_key-Steady esc s h = h
  handle_form_key-Steady tab s h = h
  handle_form_key-Steady backspace s h = h
  handle_form_key-Steady (char c) s h = h
  handle_form_key-Steady down s h = h
  handle_form_key-Steady up s h = h
  handle_form_key-Steady KeyCode.other s h = h

  handle_protect_key-Steady :
      (code : KeyCode) (s : Session W)
      → Steady s
      → Steady (handle_protect_key client decimal code s)
  unfolding handle_protect_key remove_last protect_value
  handle_protect_key-Steady backspace s h =
      if-cases Steady (is_empty s.app.protect_input) _ _
        (λ _.
          if-cases Steady s.app.demo _ _ (λ _. h)
            (λ _. unprotected-IsSteady (client.unprotect s.world).0 s.app h))
        (λ _. h)
  handle_protect_key-Steady enter s h =
      let value = trim s.app.protect_input in
      if-cases Steady (is_empty value) _ _ (λ _. h)
        (λ _.
          if-cases (λ (t : Session W). t.app.selected ≤ length t.app.pending - 1) s.app.demo _ _
            (λ _. h) (λ _. protected_shown-IsSteady (client.protect value s.world).0 s.app h))
  handle_protect_key-Steady esc s h = h
  handle_protect_key-Steady (char c) s h = h
  handle_protect_key-Steady tab s h = h
  handle_protect_key-Steady down s h = h
  handle_protect_key-Steady up s h = h
  handle_protect_key-Steady KeyCode.other s h = h

  handle_key-Steady :
      (view : View) (code : KeyCode) (s : Session W)
      → Steady s
      → Steady (handle_key client decimal view code s)
  unfolding handle_key
  handle_key-Steady new_token code s h = handle_form_key-Steady code s h
  handle_key-Steady protect code s h = handle_protect_key-Steady code s h
  handle_key-Steady approvals code s h = handle_command-Steady (command_of code) s h
  handle_key-Steady history code s h = handle_command-Steady (command_of code) s h

  clicked-Steady :
      (hit : Option (ℕ × Bool)) (s : Session W) → Steady s → Steady (clicked client decimal hit s)
  unfolding clicked
  clicked-Steady none s h = h
  clicked-Steady (some (id, allow)) s h = act_on-Steady id allow s h

  handle_round-Steady :
      (round : Round) (s : Session W) → Steady s → Steady (handle_round client decimal round s)
  unfolding handle_round handle_event handle_mouse scroll_history
  handle_round-Steady tick s h = refresh-Steady (shows spun s) h
  handle_round-Steady (happens (key true code)) s h = handle_key-Steady s.app.view code s h
  handle_round-Steady (happens (key false code)) s h = h
  handle_round-Steady (happens (mouse left_down row column)) s h =
      clicked-Steady (hit_at s.app.hits row column) s h
  handle_round-Steady (happens (mouse scroll_down row column)) s h =
      if-cases Steady (is_history s.app.view) _ _ (λ _. h) (λ _. h)
  handle_round-Steady (happens (mouse scroll_up row column)) s h =
      if-cases Steady (is_history s.app.view) _ _ (λ _. h) (λ _. h)
  handle_round-Steady (happens (mouse MouseKind.other row column)) s h = h
  handle_round-Steady (happens Event.other) s h = h

  module _ (inner : Rect → Rect) where
    rounds-Steady :
        (steps : List (Rect × Round)) (s : Session W)
        → Steady s
        → Steady (rounds client decimal inner steps s)
    unfolding rounds drawn draw
    rounds-Steady [] s h = h
    rounds-Steady ((area, round) ∷ rest) s h =
        if-cases Steady s.app.quit _ _ (λ _. h)
          (λ _.
            rounds-Steady rest
              (handle_round client decimal round (drawn client decimal inner area s))
              (handle_round-Steady round (drawn client decimal inner area s) h))

    -- Whatever the human, the daemon and the clock do, the selection of the cockpit is on a pending action,
    -- or at the top where there is none.
    pub run_loop-IsSteady :
        (demo : Bool) (world : W) (steps : List (Rect × Round))
        → IsSteady (run_loop client decimal inner demo world steps).app
    unfolding run_loop first_app
    run_loop-IsSteady demo world steps =
        rounds-Steady steps
          (refresh client decimal (record { app = first_app demo; world = world; sent = [] }))
          (refresh-Steady (record { app = first_app demo; world = world; sent = [] }) (omega arith))
