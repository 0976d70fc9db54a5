-- ===== src/Cli/Cockpit/Answers.antt =====
-- Which answers the cockpit of crates/guardian-cli/src/tui.rs sends to the daemon.
use project_guardian.Common.{
  subst, ◌||◌, trim, if-cases, Result, ok, err, ℕ, Bool, true, false, Option, none, some, List, [],
  ◌∷◌, ◌++◌, Text, ◌≡◌, refl, sym, ap, ◌∙◌, arith, if◌then◌else◌,
}
use mathlib.Core.List.{append-nil, append_assoc}
use project_guardian.Daemon.Control.{PendingView, HistoryView}
use project_guardian.Cli.Cockpit.{
  scroll_history, App, Client, Session, View, approvals, history, new_token, protect, ids, item_at,
  clamped, pending_shown, history_shown, vault_shown, refresh_history, refresh_live, demo_shown,
  refresh, act_on, without, resolve, resolve_selected, deny_all, panic_all, submit_token,
  is_history, is_empty,
}
use project_guardian.Cli.Cockpit.Events.{
  KeyCode, esc, backspace, enter, tab, down, up, char, MouseKind, left_down, scroll_down, scroll_up,
  Event, key, mouse, Round, tick, happens, Command, quits, moves, answers, panics, refreshes,
  opens_form, opens_protect, switches, nothing, shows, to_protect, to_other_screen, spun,
  command_of, hit_at, clicked, remove_last, protect_value, handle_command, handle_key,
  handle_form_key, handle_protect_key, handle_mouse, handle_event, handle_round,
}
use project_guardian.Cli.Cockpit.Preview.{handle_round-Quiet}
use project_guardian.Cli.Cockpit.Asking.{
  of_selected, denials, of_command, of_key, of_click, of_click-hit_at, of_command-keyed, given,
  answers_of,
}

module _ {W : Type 0} (client : Client W) (decimal : ℕ → Text) where
  abbrev Keeps : Session W → Session W → Type 0
  Keeps s t = t.sent ≡ s.sent

  refresh-sent : (s : Session W) → (refresh client decimal s).sent ≡ s.sent
  unfolding refresh
  refresh-sent s =
      if-cases (λ (t : Session W). t.sent ≡ s.sent) s.app.demo _ _ (λ _. refl) (λ _. refl)

  clamped-demo : (a : App) → (clamped a).demo ≡ a.demo
  unfolding clamped
  clamped-demo a = ground arith

  pending_shown-demo :
      (r : Result (List PendingView) Text) (a : App)
      → (pending_shown client decimal r a).demo ≡ a.demo
  unfolding pending_shown
  pending_shown-demo (ok pending) a = clamped-demo (record a { pending = pending })
  pending_shown-demo (err e) a = refl

  history_shown-demo :
      (r : Result (List HistoryView) Text) (a : App) → (history_shown r a).demo ≡ a.demo
  unfolding history_shown
  history_shown-demo (ok rows) a = refl
  history_shown-demo (err e) a = refl

  vault_shown-demo :
      (r : Result (ℕ × ℕ × List Text) Text) (a : App) → (vault_shown r a).demo ≡ a.demo
  unfolding vault_shown
  vault_shown-demo (ok v) a = refl
  vault_shown-demo (err e) a = refl

  refresh_history-demo : (a : App) (w : W) → (refresh_history client decimal a w).0.demo ≡ a.demo
  unfolding refresh_history
  refresh_history-demo a w =
      if-cases (λ (t : App × W). t.0.demo ≡ a.demo) (is_history a.view) _ _
        (λ _. history_shown-demo (client.history 50 w).0 a) (λ _. refl)

  refresh-demo : (s : Session W) → (refresh client decimal s).app.demo ≡ s.app.demo
  unfolding refresh demo_shown refresh_live
  refresh-demo s =
      if-cases (λ (t : Session W). t.app.demo ≡ s.app.demo) s.app.demo _ _ (λ _. clamped-demo s.app)
        (λ _.
          vault_shown-demo _ _
          ∙ refresh_history-demo _ _
          ∙ pending_shown-demo (client.pending s.world).0 s.app)

  -- The session with an answer sent.
  abbrev pub answered : ℕ → Bool → Session W → Session W
  answered id allow s = record s {
    world = (client.respond id allow s.world).1;
    sent = s.sent ++ (id, allow) ∷ [];
  }

  act_on-sent :
      (id : ℕ) (allow : Bool) (s : Session W)
      → s.app.demo ≡ false
      → (act_on client decimal id allow s).sent ≡ s.sent ++ (id, allow) ∷ []
  unfolding act_on
  act_on-sent id allow s live =
      if-cases (λ (t : Session W). t.sent ≡ s.sent ++ (id, allow) ∷ []) s.app.demo _ _
        (λ preview. absurd (ground (arith, live, preview)))
        (λ _. refresh-sent (answered id allow s))

  act_on-demo :
      (id : ℕ) (allow : Bool) (s : Session W)
      → (act_on client decimal id allow s).app.demo ≡ s.app.demo
  unfolding act_on demo_shown
  act_on-demo id allow s =
      if-cases (λ (t : Session W). t.app.demo ≡ s.app.demo) s.app.demo _ _
        (λ _. clamped-demo (record s.app { pending = without id s.app.pending }))
        (λ _. refresh-demo (answered id allow s))

  deny_all-sent :
      (all : List ℕ) (s : Session W)
      → s.app.demo ≡ false
      → (deny_all client decimal all s).sent ≡ s.sent ++ denials all
  unfolding deny_all
  deny_all-sent [] s live = sym (append-nil s.sent)
  deny_all-sent (id ∷ rest) s live =
      deny_all-sent rest (act_on client decimal id false s) (act_on-demo id false s ∙ live)
      ∙ ap (λ t. t ++ denials rest) (act_on-sent id false s live)
      ∙ append_assoc s.sent ((id, false) ∷ []) (denials rest)

  submit_token-sent : (s : Session W) → (submit_token client decimal s).sent ≡ s.sent
  unfolding submit_token
  submit_token-sent s =
      if-cases (Keeps s) (is_empty (trim s.app.form.target) || is_empty s.app.form.secret) _ _
        (λ _. refl) (λ _. if-cases (Keeps s) s.app.demo _ _ (λ _. refl) (λ _. refl))

  handle_form_key-sent :
      (code : KeyCode) (s : Session W) → (handle_form_key client decimal code s).sent ≡ s.sent
  unfolding handle_form_key
  handle_form_key-sent enter s = submit_token-sent s
  handle_form_key-sent esc s = refl
  handle_form_key-sent tab s = refl
  handle_form_key-sent backspace s = refl
  handle_form_key-sent (char c) s = refl
  handle_form_key-sent down s = refl
  handle_form_key-sent up s = refl
  handle_form_key-sent KeyCode.other s = refl

  handle_protect_key-sent :
      (code : KeyCode) (s : Session W) → (handle_protect_key client decimal code s).sent ≡ s.sent
  unfolding handle_protect_key remove_last protect_value
  handle_protect_key-sent backspace s =
      if-cases (Keeps s) (is_empty s.app.protect_input) _ _
        (λ _. if-cases (Keeps s) s.app.demo _ _ (λ _. refl) (λ _. refl)) (λ _. refl)
  handle_protect_key-sent enter s =
      if-cases (Keeps s) (is_empty (trim s.app.protect_input)) _ _ (λ _. refl)
        (λ _. if-cases (Keeps s) s.app.demo _ _ (λ _. refl) (λ _. refl))
  handle_protect_key-sent esc s = refl
  handle_protect_key-sent (char c) s = refl
  handle_protect_key-sent tab s = refl
  handle_protect_key-sent down s = refl
  handle_protect_key-sent up s = refl
  handle_protect_key-sent KeyCode.other s = refl

  -- What a live session has sent after a step, if the step sends these answers.
  abbrev Sends : List (ℕ × Bool) → Session W → Session W → Type 0
  Sends all s t = t.sent ≡ s.sent ++ all

  silent : (s t : Session W) → t.sent ≡ s.sent → Sends [] s t
  silent s t h = h ∙ sym (append-nil s.sent)

  resolve-Sends :
      (item : Option PendingView) (allow : Bool) (s : Session W)
      → s.app.demo ≡ false
      → Sends (of_selected allow item) s (resolve client decimal item allow s)
  unfolding resolve
  resolve-Sends none allow s live = silent s s refl
  resolve-Sends (some item) allow s live = act_on-sent item.id allow s live

  handle_command-Sends :
      (command : Command) (s : Session W)
      → s.app.demo ≡ false
      → Sends (of_command command s.app) s (handle_command client decimal command s)
  unfolding handle_command resolve_selected panic_all
  handle_command-Sends quits s live = silent s s refl
  handle_command-Sends (moves downward) s live = silent s s refl
  handle_command-Sends (answers allow) s live =
      resolve-Sends (item_at s.app.selected s.app.pending) allow s live
  handle_command-Sends panics s live = deny_all-sent (ids s.app.pending) s live
  handle_command-Sends refreshes s live = silent s (refresh client decimal s) (refresh-sent s)
  handle_command-Sends opens_form s live = silent s s refl
  handle_command-Sends opens_protect s live =
      silent s (refresh client decimal (shows to_protect s)) (refresh-sent (shows to_protect s))
  handle_command-Sends switches s live =
      silent s (refresh client decimal (shows to_other_screen s))
        (refresh-sent (shows to_other_screen s))
  handle_command-Sends nothing s live = silent s s refl

  handle_key-Sends :
      (view : View) (code : KeyCode) (s : Session W)
      → s.app.demo ≡ false
      → Sends (of_key view code s.app) s (handle_key client decimal view code s)
  unfolding handle_key
  handle_key-Sends new_token code s live =
      silent s (handle_form_key client decimal code s) (handle_form_key-sent code s)
  handle_key-Sends protect code s live =
      silent s (handle_protect_key client decimal code s) (handle_protect_key-sent code s)
  handle_key-Sends approvals code s live =
      subst (λ all. Sends all s (handle_command client decimal (command_of code) s))
        (of_command-keyed code s.app) (handle_command-Sends (command_of code) s live)
  handle_key-Sends history code s live =
      subst (λ all. Sends all s (handle_command client decimal (command_of code) s))
        (of_command-keyed code s.app) (handle_command-Sends (command_of code) s live)

  clicked-Sends :
      (hit : Option (ℕ × Bool)) (s : Session W)
      → s.app.demo ≡ false
      → Sends (of_click hit) s (clicked client decimal hit s)
  unfolding clicked
  clicked-Sends none s live = silent s s refl
  clicked-Sends (some (id, allow)) s live = act_on-sent id allow s live

  scroll-Sends :
      (b : Bool) (f : App → App) (s : Session W) → Sends [] s (if b then shows f s else s)
  scroll-Sends true f s = silent s s refl
  scroll-Sends false f s = silent s s refl

  handle_round-Sends :
      (round : Round) (s : Session W)
      → s.app.demo ≡ false
      → Sends (given round s.app) s (handle_round client decimal round s)
  unfolding handle_round handle_event handle_mouse
  handle_round-Sends tick s live =
      silent s (refresh client decimal (shows spun s)) (refresh-sent (shows spun s))
  handle_round-Sends (happens (key true code)) s live = handle_key-Sends s.app.view code s live
  handle_round-Sends (happens (key false code)) s live = silent s s refl
  handle_round-Sends (happens (mouse left_down row column)) s live =
      subst (λ all. Sends all s (clicked client decimal (hit_at s.app.hits row column) s))
        (of_click-hit_at s.app.hits row column)
        (clicked-Sends (hit_at s.app.hits row column) s live)
  handle_round-Sends (happens (mouse scroll_down row column)) s live =
      scroll-Sends (is_history s.app.view) (scroll_history true) s
  handle_round-Sends (happens (mouse scroll_up row column)) s live =
      scroll-Sends (is_history s.app.view) (scroll_history false) s
  handle_round-Sends (happens (mouse MouseKind.other row column)) s live = silent s s refl
  handle_round-Sends (happens Event.other) s live = silent s s refl

  -- What a round sends to the daemon is, outside the preview: one answer for the selected action on `a` and
  -- `d` where no form is open, one denial of each pending action on `p` there, one answer for the action of
  -- the first label that covers the place of a left click, and nothing otherwise, whatever the daemon replies.
  pub handle_round-answers_of :
      (round : Round) (s : Session W)
      → (handle_round client decimal round s).sent ≡ s.sent ++ answers_of round s.app
  handle_round-answers_of round s =
      if-cases (λ all. (handle_round client decimal round s).sent ≡ s.sent ++ all) s.app.demo [] _
        (λ preview. (handle_round-Quiet client decimal round s preview).0 ∙ sym (append-nil s.sent))
        (λ live. handle_round-Sends round s live)
