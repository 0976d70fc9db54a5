-- ===== src/Tests/Watching.antt =====
-- A concrete cockpit of crates/guardian-cli/src/tui.rs.
use project_guardian.Common.{
  min, ◌-◌, ℕ, ◌+◌, Bool, true, false, List, [], ◌∷◌, ◌++◌, Text, bytes, err, ◌≡◌, refl, All, arith,
}
use project_guardian.Daemon.Control.{PendingView}
use project_guardian.Cli.Cockpit.{Client, Session, View, refresh, act_on, panic_all, item_at}
use project_guardian.Cli.Cockpit.Buttons.{Insets, Rect, draw, hits_from}
use project_guardian.Cli.Cockpit.Events.{
  char, key, mouse, left_down, happens, Round, handle_round, command_of, hit_at,
}
use project_guardian.Cli.Cockpit.Loop.{drawn, run_loop, first_app}
use project_guardian.Cli.Cockpit.Asking.{answers_of}
use project_guardian.Cli.Cockpit.Answers.{handle_round-answers_of}
use project_guardian.Cli.Cockpit.Seen.{IsAsked, handle_round-IsAsked}
use project_guardian.Cli.Cockpit.Preview.{run_loop-Quiet}
use project_guardian.Cli.Cockpit.Steady.{IsSteady, run_loop-IsSteady}

abbrev waiting : PendingView
waiting = record {
  id = 7;
  action_id = [];
  tool = bytes "bank.transfer";
  plain_text = [];
  risk = 90;
}

-- A daemon that cannot be reached; what is outside counts the answers that are tried.
abbrev no_daemon : Client ℕ
no_daemon = record {
  pending = λ w. (err [], w);
  history = λ limit w. (err [], w);
  vault_status = λ w. (err [], w);
  respond = λ id allow w. (err [], w + 1);
  protect = λ value w. (err [], w);
  unprotect = λ w. (err [], w);
  store = λ target secret w. (err [], w);
}

abbrev digit : ℕ → Text
digit n = (b'0' + n) ∷ []

-- The inside of a block with borders, which starts at the block's end where it has no room.
abbrev inside : Rect → Rect
inside r = record {
  x = min (min (r.x + 1) 65535) (min (r.x + r.width) 65535);
  y = min (min (r.y + 1) 65535) (min (r.y + r.height) 65535);
  width = r.width - 2;
  height = r.height - 2;
}

inside-Insets : Insets inside
inside-Insets r column row across down = (omega (arith, column, across), omega (arith, row, down))

abbrev screen : Rect
screen = record { x = 0; y = 3; width = 80; height = 20 }

abbrev watching : Session ℕ
watching = record {
  app = record (first_app false) { pending = waiting ∷ [] };
  world = 0;
  sent = [];
}

-- A click on the label that allows.
abbrev approving : Round
approving = happens (mouse left_down 6 5)

handle_round-IsAsked_example :
    (new : List (ℕ × Bool)) × ((handle_round no_daemon digit approving
        (drawn no_daemon digit inside screen watching)).sent
      ≡ [] ++ new)
    × All (IsAsked screen approving watching.app) new
handle_round-IsAsked_example =
    handle_round-IsAsked no_daemon digit inside screen inside-Insets (omega arith) (omega arith)
      (omega arith) approving watching

-- The click goes through.
approving-sent :
    (handle_round no_daemon digit approving (drawn no_daemon digit inside screen watching)).sent
    ≡ (7, true) ∷ []
unfolding handle_round drawn draw hits_from hit_at act_on refresh first_app
approving-sent = refl

handle_round-answers_of_example :
    (handle_round no_daemon digit (happens (key true (char (bytes "p")))) watching).sent
    ≡ [] ++ answers_of (happens (key true (char (bytes "p")))) watching.app
handle_round-answers_of_example =
    handle_round-answers_of no_daemon digit (happens (key true (char (bytes "p")))) watching

run_loop-Quiet_example :
    ((run_loop no_daemon digit inside true 0 ((screen, approving) ∷ [])).sent ≡ [])
    × ((run_loop no_daemon digit inside true 0 ((screen, approving) ∷ [])).world ≡ 0)
run_loop-Quiet_example = run_loop-Quiet no_daemon digit inside 0 ((screen, approving) ∷ [])

run_loop-IsSteady_example :
    IsSteady (run_loop no_daemon digit inside true 0 ((screen, approving) ∷ [])).app
run_loop-IsSteady_example =
    run_loop-IsSteady no_daemon digit inside true 0 ((screen, approving) ∷ [])

-- On the archive, where the action is not shown, the key allows it all the same.
archive-allows :
    (handle_round no_daemon digit
      (happens (key true (char (b'a' ∷ []))))
      (record watching { app = record watching.app { view = View.history } })).sent
    ≡ (7, true) ∷ []
unfolding handle_round command_of act_on refresh first_app item_at
archive-allows = refl

-- The status says that an action was denied though no denial arrived.
panic_all-unreached : (panic_all no_daemon digit watching).app.status ≡ bytes "panic: denied 1"
unfolding panic_all act_on refresh first_app bytes
panic_all-unreached = refl
