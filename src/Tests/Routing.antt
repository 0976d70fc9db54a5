-- ===== src/Tests/Routing.antt =====
-- Concrete requests and replies on the control socket of crates/guardian-daemon/src/lib.rs.
use project_guardian.Common.{
  trim, arith, true, false, some, none, [], ◌∷◌, ◌≡◌, refl, bytes, Text, Result, ok, text_eq,
  if◌then◌else◌,
}
use project_guardian.Core.{Value, object, member}
use project_guardian.Gateway.State.{GatewayOutcome, approved, allowed, blocked, upstream_error}
use project_guardian.Gateway.Handle.{handle}
use project_guardian.Gateway.Call.{ToolCall}
use project_guardian.Daemon.Queue.{new}
use project_guardian.Daemon.Control.{
  Daemon, Outside, PendingView, Response, responded, approval, vault, outcome_response,
}
use project_guardian.Daemon.Control.Replies.{
  response_to_value, outcome_of, flag, pending_of, history_of, vault_triple,
}
use project_guardian.Daemon.Control.Client.{call_value, route, is_blank}
use project_guardian.Daemon.Control.RoundTrip.{response_to_value-reads_back}
use project_guardian.Daemon.Control.Routing.{route-handle, handled}
use project_guardian.Tests.Samples.{
  sample_ed, sample_cel, sample_hash, no_number, sample_ports, sample_config, sample_state,
  payment_call,
}

abbrev sample_view : PendingView
sample_view = record {
  id = 3;
  action_id = bytes "a";
  tool = bytes "pay";
  plain_text = [];
  risk = 90;
}

response_to_value-reads_back_example :
    (outcome_of (response_to_value (outcome_response (blocked []))) ≡ blocked [])
    × (pending_of (response_to_value (Response.pending (sample_view ∷ [])))
        ≡ some (sample_view ∷ []))
    × (history_of (response_to_value (Response.history [])) ≡ some [])
    × (flag (bytes "ok") (response_to_value (responded true)) ≡ true)
    × (flag (bytes "approved") (response_to_value (approval true)) ≡ true)
    × (flag (bytes "engaged") (response_to_value (Response.kill_switch true)) ≡ true)
    × (vault_triple (response_to_value (vault 1 2 [])) ≡ (1, 2, []))
response_to_value-reads_back_example =
    response_to_value-reads_back (blocked []) (sample_view ∷ []) [] true 1 2 [] (ground arith, tt)

abbrev sample_outside : Outside
sample_outside = record { wait = λ a t e w. (approved, w); can_write = true; can_remove = true }

abbrev sample_daemon : Daemon
sample_daemon = record {
  gateway = sample_state;
  queue = record { queue = new 9; requests = [] };
  killed = false;
}

abbrev session_call : ToolCall
session_call = record payment_call { session = some (bytes "s") }

abbrev sample_reply : Value
sample_reply = response_to_value (
    outcome_response
      (handle sample_ed sample_cel no_number sample_ports sample_config sample_hash payment_call
        sample_state).0)

-- A text is the first key of its object.
abbrev sample_print : Value → Text
sample_print (object (member k v ms)) = k
sample_print v = []

abbrev sample_read : Text → Result Value Text
sample_read s = if text_eq s (bytes "tool") then ok (call_value session_call) else ok sample_reply

prints_reply :
    (x : GatewayOutcome) → sample_print (response_to_value (outcome_response x)) ≡ bytes "result"
unfolding response_to_value outcome_response
prints_reply (allowed detail) = refl
prints_reply (blocked reason) = refl
prints_reply (upstream_error e) = refl

reads_reply : sample_read (sample_print sample_reply) ≡ ok sample_reply
unfolding text_eq bytes
reads_reply =
    rw
      (prints_reply
        (handle sample_ed sample_cel no_number sample_ports sample_config sample_hash payment_call
          sample_state).0)
      refl

route-handle_example :
    let h =
      handled sample_ed sample_cel no_number sample_ports sample_config sample_hash
        (λ s. none)
        sample_outside
        sample_read
        sample_print
        (λ v. [])
        session_call
        sample_daemon in
    route sample_ed sample_cel no_number sample_ports sample_config sample_hash
      (λ s. none)
      sample_outside
      sample_read
      sample_print
      (λ v. [])
      (ok tt)
      session_call
      sample_daemon
    ≡ (h.0, record sample_daemon { gateway = h.1 })
unfolding call_value bytes text_eq is_blank trim
route-handle_example =
    route-handle sample_ed sample_cel no_number sample_ports sample_config sample_hash (λ s. none)
      sample_outside sample_read sample_print (λ v. []) session_call sample_daemon refl refl
      reads_reply
