-- ===== src/Cli/Cockpit.antt =====
-- crates/guardian-cli/src/tui.rs: the cockpit in which a human answers. What is shown is left out but for
-- the buttons (Buttons); the daemon's client and the keychain are an interface over what is outside.
pub mod Buttons
pub mod Events
pub mod Loop
pub mod Preview
pub mod Asking
pub mod Answers
pub mod Clicks
pub mod Seen
pub mod Steady
use project_guardian.Common.{
  ℕ, ◌+◌, ◌-◌, ◌%◌, Bool, true, false, not, ◌||◌, Option, none, some, List, [], ◌∷◌, ◌++◌, Text,
  bytes, trim, chars, from_chars, length, leb, min, ◌==◌, if◌then◌else◌, Result, ok, err, map,
}
use mathlib.Core.List.{reverse}
use project_guardian.Daemon.Control.{PendingView, HistoryView}

-- A clickable region of a button: the row, and the columns of the two labels.
pub record Hit : Type 0 where
  pub row : ℕ
  pub allow : ℕ × ℕ
  pub deny : ℕ × ℕ
  pub id : ℕ

pub data View : Type 0 where
  approvals history new_token protect : View

pub data Field : Type 0 where
  target secret : Field

pub record TokenForm : Type 0 where
  pub target : Text
  pub secret : Text
  pub field : Field
  pub message : Text

-- `TokenForm::new`
unfoldable pub empty_form : TokenForm
empty_form = record { target = []; secret = []; field = Field.target; message = [] }

pub record App : Type 0 where
  pub pending : List PendingView
  pub selected : ℕ
  pub spinner : ℕ
  pub status : Text
  pub hits : List Hit
  pub quit : Bool
  pub demo : Bool
  pub view : View
  pub history : List HistoryView
  pub history_offset : ℕ
  pub form : TokenForm
  pub protect_input : Text
  pub protect_message : Text
  pub vault : ℕ × ℕ
  pub vault_values : List Text

-- The calls of the daemon's client and of the keychain, on what is outside.
pub record Client (W : Type 0) : Type 0 where
  pub pending : W → Result (List PendingView) Text × W
  pub history : ℕ → W → Result (List HistoryView) Text × W
  pub vault_status : W → Result (ℕ × ℕ × List Text) Text × W
  pub respond : ℕ → Bool → W → Result Bool Text × W
  pub protect : Text → W → Result (ℕ × ℕ × List Text) Text × W
  pub unprotect : W → Result (ℕ × ℕ × List Text) Text × W
  pub store : Text → Text → W → Result (Unit {0}) Text × W

-- The cockpit and what is outside, with the answers that went to the daemon so far.
pub record Session (W : Type 0) : Type 0 where
  pub app : App
  pub world : W
  pub sent : List (ℕ × Bool)

is_empty : Text → Bool
is_empty [] = true
is_empty (_ ∷ _) = false

-- `String::pop`
unfoldable pub popped : Text → Text
unfolding chars from_chars
popped s = from_chars (reverse (rest_of (reverse (chars s))))
  where
    rest_of : List Text → List Text
    rest_of [] = []
    rest_of (_ ∷ cs) = cs

unfoldable pub clamped : App → App
clamped a =
    if leb (length a.pending) a.selected then record a { selected = length a.pending - 1 } else a

unfoldable pub vault_shown : Result (ℕ × ℕ × List Text) Text → App → App
vault_shown (ok (protected, tokens, values)) a = record a {
  vault = (protected, tokens);
  vault_values = values;
}
vault_shown (err e) a = a

unfoldable pub history_shown : Result (List HistoryView) Text → App → App
history_shown (ok rows) a = record a { history = rows }
history_shown (err e) a = a

-- `move_selection`: one down, or one up. The code's numbers are signed, and its remainder of -1 is -1
-- where there are several items and 0 where there is one.
unfoldable pub move_selection : Bool → App → App
move_selection down a =
    let n = length a.pending in
    if n == 0
    then a
    else if down
    then record a { selected = ((a.selected + 1) % n + n) % n }
    else if a.selected == 0
    then record a { selected = (n - 1) % n }
    else record a { selected = ((a.selected - 1) % n + n) % n }

-- `scroll_history`: one down, or one up, between the first row and the last
unfoldable pub scroll_history : Bool → App → App
scroll_history down a =
    let last = length a.history - 1 in
    record a {
      history_offset = min (if down then a.history_offset + 1 else a.history_offset - 1) last;
    }

unfoldable pub without : ℕ → List PendingView → List PendingView
without id [] = []
without id (p ∷ pending) = let rest = without id pending in if p.id == id then rest else p ∷ rest

unfoldable pub ids : List PendingView → List ℕ
ids pending = map (λ (p : PendingView). p.id) pending

-- `pending.get(selected)`
unfoldable pub item_at : ℕ → List PendingView → Option PendingView
item_at n [] = none
item_at n (p ∷ pending) = let rest = item_at (n - 1) pending in if n == 0 then some p else rest

pub is_history : View → Bool
is_history View.history = true
is_history _ = false

-- Numbers as text are a parameter.
module _ {W : Type 0} (client : Client W) (decimal : ℕ → Text) where
  counted : App → Text
  unfolding bytes
  counted a = decimal (length a.pending) ++ bytes " pending"

  unfoldable pub demo_shown : App → App
  unfolding clamped counted bytes
  demo_shown a = let a' = clamped a in record a' { status = bytes "demo - " ++ counted a' }

  unfoldable pub pending_shown : Result (List PendingView) Text → App → App
  unfolding clamped counted bytes
  pending_shown (ok pending) a =
      let a' = clamped (record a { pending = pending }) in record a' { status = counted a' }
  pending_shown (err e) a = record a { status = bytes "daemon unreachable (" ++ (e ++ bytes ")") }

  -- The activity archive is refreshed when it is on the screen.
  refresh_history : App → W → App × W
  unfolding history_shown is_history
  refresh_history a w =
      if is_history a.view
      then (let (r, w') = client.history 50 w in (history_shown r a, w'))
      else (a, w)

  refresh_live : App → W → App × W
  unfolding pending_shown refresh_history vault_shown
  refresh_live a w =
      let (r, w1) = client.pending w in
      let (a', w2) = refresh_history (pending_shown r a) w1 in
      let (v, w3) = client.vault_status w2 in (vault_shown v a', w3)

  unfoldable pub refresh : Session W → Session W
  unfolding demo_shown refresh_live
  refresh s =
      if s.app.demo
      then record s { app = demo_shown s.app }
      else (let (a, w) = refresh_live s.app s.world in record s { app = a; world = w })

  unfoldable pub act_on : ℕ → Bool → Session W → Session W
  unfolding demo_shown refresh without
  act_on id allow s =
      if s.app.demo
      then record s { app = demo_shown (record s.app { pending = without id s.app.pending }) }
      else refresh (record s {
        world = (client.respond id allow s.world).1;
        sent = s.sent ++ (id, allow) ∷ [];
      })

  unfoldable pub resolve : Option PendingView → Bool → Session W → Session W
  unfolding act_on
  resolve none allow s = s
  resolve (some item) allow s = act_on item.id allow s

  unfoldable pub resolve_selected : Bool → Session W → Session W
  unfolding resolve item_at
  resolve_selected allow s = resolve (item_at s.app.selected s.app.pending) allow s

  unfoldable pub deny_all : List ℕ → Session W → Session W
  unfolding act_on
  deny_all [] s = s
  deny_all (id ∷ rest) s = deny_all rest (act_on id false s)

  unfoldable pub panic_all : Session W → Session W
  unfolding deny_all ids bytes
  panic_all s =
      let s' = deny_all (ids s.app.pending) s in
      record s' {
        app = record s'.app {
          status = bytes "panic: denied " ++ decimal (length (ids s.app.pending));
        };
      }

  unfoldable pub stored : Text → Result (Unit {0}) Text → App → App
  unfolding bytes empty_form
  stored site (ok _) a = record a {
    form = record empty_form {
      message = bytes "stored a token for " ++ (site ++ bytes " in the keychain");
    };
  }
  stored site (err e) a = record a { form = record a.form { message = bytes "error: " ++ e } }

  unfoldable pub submit_token : Session W → Session W
  unfolding trim is_empty stored bytes empty_form
  submit_token s =
      let site = trim s.app.form.target in
      if is_empty site || is_empty s.app.form.secret
      then record s {
        app = record s.app {
          form = record s.app.form { message = bytes "enter both a site (host) and a secret" };
        };
      }
      else if s.app.demo
      then record s {
        app = record s.app {
          form = record empty_form { message = bytes "(demo) would store a token for " ++ site };
        };
      }
      else (let (r, w) = client.store site s.app.form.secret s.world in
          record s { app = stored site r s.app; world = w })
