-- ===== src/Cli/Cockpit/Loop.antt =====
-- crates/guardian-cli/src/tui.rs: `run_loop`, with the samples of its preview.
use project_guardian.Common.{
  ℕ, Bool, true, false, Option, none, some, List, [], ◌∷◌, ◌++◌, Text, bytes, if◌then◌else◌,
}
use project_guardian.Daemon.Control.{PendingView, HistoryView}
use project_guardian.Cli.Cockpit.{App, Client, Session, approvals, empty_form, refresh}
use project_guardian.Cli.Cockpit.Buttons.{Rect, draw}
use project_guardian.Cli.Cockpit.Events.{Round, handle_round}

sample_view : ℕ → Text → Text → Text → ℕ → PendingView
sample_view id digit tool text risk = record {
  id = id;
  action_id = bytes "act-" ++ digit;
  tool = tool;
  plain_text = text;
  risk = risk;
}

unfoldable pub demo_pending : List PendingView
unfolding sample_view bytes
demo_pending =
    sample_view 1 (bytes "1") (bytes "bank.transfer")
      (bytes "The agent wants to move money (EUR 4,000 to an unknown account).") 92
    ∷ sample_view 2 (bytes "2") (bytes "shell.run")
        (bytes "The agent wants to run a command: rm -rf ./build") 74
    ∷ sample_view 3 (bytes "3") (bytes "http.post")
        (bytes "The agent wants to send a file to a site that is not on your trusted list.") 88
    ∷ sample_view 4 (bytes "4") (bytes "fs.read")
        (bytes "The agent wants to read a note in your home folder.") 12
    ∷ []

sample_row : Text → Text → Option Text → Text → Bool → HistoryView
sample_row decision kind host rule critical = record {
  decision = decision;
  kind = kind;
  host = host;
  rule = some rule;
  reason = none;
  critical = critical;
}

unfoldable pub demo_history : List HistoryView
unfolding sample_row bytes
demo_history =
    sample_row (bytes "allow") (bytes "HttpRequest") (some (bytes "bank.example"))
      (bytes "allow-reads") false
    ∷ sample_row (bytes "deny") (bytes "HttpRequest") (some (bytes "bank.example"))
        (bytes "deny-writes") true
    ∷ sample_row (bytes "allow") (bytes "FileRead") none (bytes "allow-home-reads") false
    ∷ sample_row (bytes "ask") (bytes "Exec") none (bytes "-") false
    ∷ []

-- The state before the loop.
unfoldable pub first_app : Bool → App
unfolding demo_pending demo_history empty_form bytes
first_app demo = record {
  pending = if demo then demo_pending else [];
  selected = 0;
  spinner = 0;
  status = bytes "connecting...";
  hits = [];
  quit = false;
  demo = demo;
  view = approvals;
  history = if demo then demo_history else [];
  history_offset = 0;
  form = empty_form;
  protect_input = [];
  protect_message = [];
  vault = (0, 0);
  vault_values = [];
}

module _ {W : Type 0} (client : Client W) (decimal : ℕ → Text) (inner : Rect → Rect) where
  unfoldable pub drawn : Rect → Session W → Session W
  unfolding draw
  drawn area s = record s { app = draw inner area s.app }

  -- The rounds, each with the body of the screen that is drawn before it; quitting ends the loop.
  unfoldable pub rounds : List (Rect × Round) → Session W → Session W
  unfolding drawn handle_round
  rounds [] s = s
  rounds ((area, round) ∷ rest) s =
      let next = rounds rest (handle_round client decimal round (drawn area s)) in
      if s.app.quit then drawn area s else next

  unfoldable pub run_loop : Bool → W → List (Rect × Round) → Session W
  unfolding rounds first_app refresh
  run_loop demo world steps =
      rounds steps
        (refresh client decimal (record { app = first_app demo; world = world; sent = [] }))
