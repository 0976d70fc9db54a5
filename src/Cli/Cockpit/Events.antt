-- ===== src/Cli/Cockpit/Events.antt =====
-- crates/guardian-cli/src/tui.rs: what keys and the mouse do, `handle_event`, and the rounds of `run_loop`.
use project_guardian.Common.{
  text_eq, ℕ, ◌+◌, ◌-◌, ◌%◌, Bool, true, false, ◌&&◌, Option, none, some, List, [], ◌∷◌, ◌++◌, Text,
  bytes, trim, leb, ltb, ◌==◌, if◌then◌else◌, Result, ok, err,
}
use project_guardian.Cli.Cockpit.{
  protect, new_token, empty_form, panic_all, resolve_selected, is_history, scroll_history, refresh,
  move_selection, act_on, App, Client, Session, Hit, View, Field, TokenForm, approvals, is_empty,
  popped, vault_shown, submit_token,
}

-- A character is its bytes.
pub data KeyCode : Type 0 where
  esc backspace enter tab down up : KeyCode
  char : Text → KeyCode
  other : KeyCode

pub data MouseKind : Type 0 where
  left_down scroll_down scroll_up other : MouseKind

-- A key, pressed or not, and the mouse with its row and column.
pub data Event : Type 0 where
  key : Bool → KeyCode → Event
  mouse : MouseKind → ℕ → ℕ → Event
  other : Event

-- A round of the loop: the clock ticks or something happens.
pub data Round : Type 0 where
  tick : Round
  happens : Event → Round

unfoldable pub within : ℕ × ℕ → ℕ → Bool
within (first, last) column = leb first column && ltb column last

-- The button under the mouse: the id and whether it is the one that allows.
unfoldable pub hit_at : List Hit → ℕ → ℕ → Option (ℕ × Bool)
unfolding within
hit_at [] row column = none
hit_at (hit ∷ hits) row column =
    let rest = hit_at hits row column in
    if row == hit.row
    then (if within hit.allow column
        then some (hit.id, true)
        else if within hit.deny column
        then some (hit.id, false)
        else rest)
    else rest

other_field : Field → Field
other_field Field.target = Field.secret
other_field Field.secret = Field.target

-- `*form.active()` set to what a function makes of it
edited : (Text → Text) → TokenForm → TokenForm
edited f form = elim form.field [
  | Field.target ↦ record form { target = f form.target; message = [] }
  | Field.secret ↦ record form { secret = f form.secret; message = [] }
]

unfoldable pub other_screen : View → View
other_screen View.history = approvals
other_screen _ = View.history

-- What a key does on the screens without a form.
pub data Command : Type 0 where
  quits : Command
  moves : Bool → Command
  answers : Bool → Command
  panics refreshes opens_form opens_protect switches nothing : Command

unfoldable pub is_char : ℕ → Text → Bool
unfolding text_eq
is_char b c = text_eq c (b ∷ [])

unfoldable pub command_of : KeyCode → Command
unfolding is_char
command_of esc = quits
command_of down = moves true
command_of up = moves false
command_of tab = switches
command_of (char c) =
    if is_char b'q' c
    then quits
    else if is_char b'j' c
    then moves true
    else if is_char b'k' c
    then moves false
    else if is_char b'a' c
    then answers true
    else if is_char b'd' c
    then answers false
    else if is_char b'p' c
    then panics
    else if is_char b'r' c
    then refreshes
    else if is_char b'n' c
    then opens_form
    else if is_char b'v' c
    then opens_protect
    else nothing
command_of _ = nothing

unfoldable pub move_on : Bool → App → App
unfolding move_selection scroll_history is_history
move_on downward a =
    if is_history a.view then scroll_history downward a else move_selection downward a

abbrev pub shows : {W : Type 0} → (App → App) → Session W → Session W
shows f s = record s { app = f s.app }

-- The form for protected values, empty.
abbrev pub to_protect : App → App
to_protect a = record a { view = protect; protect_input = []; protect_message = [] }

abbrev pub to_other_screen : App → App
to_other_screen a = record a { view = other_screen a.view }

abbrev pub spun : App → App
spun a = record a { spinner = (a.spinner + 1) % 4 }

module _ {W : Type 0} (client : Client W) (decimal : ℕ → Text) where
  -- `handle_form_key`
  unfoldable pub handle_form_key : KeyCode → Session W → Session W
  unfolding other_field edited popped submit_token
  handle_form_key esc s = shows (λ a. record a { view = approvals }) s
  handle_form_key tab s =
      shows (λ a. record a { form = record a.form { field = other_field a.form.field } }) s
  handle_form_key backspace s = shows (λ a. record a { form = edited popped a.form }) s
  handle_form_key enter s = submit_token client decimal s
  handle_form_key (char c) s = shows (λ a. record a { form = edited (λ t. t ++ c) a.form }) s
  handle_form_key _ s = s

  unfoldable pub unprotected : Result (ℕ × ℕ × List Text) Text → App → App
  unfolding vault_shown bytes
  unprotected (ok (protected, tokens, values)) a =
      record (vault_shown (ok (protected, tokens, values)) a) {
        protect_message =
            bytes "removed last — " ++ (decimal protected ++ bytes " value(s) protected");
      }
  unprotected (err e) a = a

  unfoldable pub protected_shown : Result (ℕ × ℕ × List Text) Text → App → App
  unfolding vault_shown bytes
  protected_shown (ok (protected, tokens, values)) a =
      record (vault_shown (ok (protected, tokens, values)) a) {
        protect_message =
            bytes "now protecting "
            ++ (decimal protected ++ bytes " value(s) — the agent will see tokens");
      }
  protected_shown (err e) a = record a { protect_message = bytes "error: " ++ e }

  unfoldable pub remove_last : Session W → Session W
  unfolding unprotected bytes
  remove_last s =
      if s.app.demo
      then shows
          (λ a. record a {
            vault = (a.vault.0 - 1, a.vault.1);
            protect_message = bytes "(demo) removed last";
          })
          s
      else (let (r, w) = client.unprotect s.world in
          record s { app = unprotected r s.app; world = w })

  unfoldable pub protect_value : Text → Session W → Session W
  unfolding protected_shown bytes
  protect_value value s =
      if s.app.demo
      then shows
          (λ a. record a {
            vault = (a.vault.0 + 1, a.vault.1);
            protect_message = bytes "(demo) would protect \"" ++ (value ++ bytes "\"");
          })
          s
      else (let (r, w) = client.protect value s.world in
          record s { app = protected_shown r s.app; world = w })

  -- The keys of the form for protected values.
  unfoldable pub handle_protect_key : KeyCode → Session W → Session W
  unfolding is_empty popped remove_last protect_value trim
  handle_protect_key esc s = shows (λ a. record a { view = approvals }) s
  handle_protect_key backspace s =
      if is_empty s.app.protect_input
      then remove_last s
      else shows (λ a. record a { protect_input = popped a.protect_input }) s
  handle_protect_key enter s =
      let value = trim s.app.protect_input in
      if is_empty value
      then s
      else shows (λ a. record a { protect_input = [] }) (protect_value value s)
  handle_protect_key (char c) s = shows (λ a. record a { protect_input = a.protect_input ++ c }) s
  handle_protect_key _ s = s

  unfoldable pub handle_command : Command → Session W → Session W
  unfolding move_on other_screen refresh resolve_selected panic_all empty_form
  handle_command quits s = shows (λ a. record a { quit = true }) s
  handle_command (moves downward) s = shows (move_on downward) s
  handle_command (answers allow) s = resolve_selected client decimal allow s
  handle_command panics s = panic_all client decimal s
  handle_command refreshes s = refresh client decimal s
  handle_command opens_form s = shows (λ a. record a { view = new_token; form = empty_form }) s
  handle_command opens_protect s = refresh client decimal (shows to_protect s)
  handle_command switches s = refresh client decimal (shows to_other_screen s)
  handle_command nothing s = s

  unfoldable pub handle_key : View → KeyCode → Session W → Session W
  unfolding handle_form_key handle_protect_key handle_command command_of
  handle_key new_token code s = handle_form_key code s
  handle_key protect code s = handle_protect_key code s
  handle_key _ code s = handle_command (command_of code) s

  unfoldable pub clicked : Option (ℕ × Bool) → Session W → Session W
  unfolding act_on
  clicked none s = s
  clicked (some (id, allow)) s = act_on client decimal id allow s

  unfoldable pub handle_mouse : MouseKind → ℕ → ℕ → Session W → Session W
  unfolding clicked hit_at scroll_history is_history
  handle_mouse left_down row column s = clicked (hit_at s.app.hits row column) s
  handle_mouse scroll_down row column s =
      if is_history s.app.view then shows (scroll_history true) s else s
  handle_mouse scroll_up row column s =
      if is_history s.app.view then shows (scroll_history false) s else s
  handle_mouse _ row column s = s

  unfoldable pub handle_event : Event → Session W → Session W
  unfolding handle_key handle_mouse
  handle_event (key true code) s = handle_key s.app.view code s
  handle_event (key false code) s = s
  handle_event (mouse kind row column) s = handle_mouse kind row column s
  handle_event Event.other s = s

  -- One branch of the `select!` of the loop.
  unfoldable pub handle_round : Round → Session W → Session W
  unfolding handle_event refresh
  handle_round tick s = refresh client decimal (shows spun s)
  handle_round (happens event) s = handle_event event s
