-- ===== src/Daemon/Control/RoundTrip.antt =====
-- What the client of crates/guardian-daemon/src/lib.rs sends and reads, against what the daemon reads and
-- sends.
use project_guardian.Common.{
  and_then, All-of, ap, ℕ, Bool, Option, none, some, List, [], ◌∷◌, Text, bytes, All, ◌≡◌, ◌≤◌,
  refl, arith, text_eq, lookup,
}
use project_guardian.Core.{
  Value, string, insert, ActionKind, Capability, as_str, as_bool, find, get,
}
use project_guardian.Core.Wire.{kind_name, capability_name}
use project_guardian.Gateway.Call.{ToolCall}
use project_guardian.Gateway.State.{GatewayOutcome, allowed, blocked, upstream_error}
use project_guardian.Daemon.Control.{
  call, approve, protect, PendingView, HistoryView, Response, responded, approval, vault,
  outcome_response,
}
use project_guardian.Daemon.Control.Wire.{
  request_of_value, read_kind, read_capability, required, defaulted, nullable, as_u64, read_u8,
}
use project_guardian.Daemon.Control.Replies.{
  strings_of, response_to_value, outcome_of, flag, pending_of, history_of, vault_triple, values_of,
  read_values, pending_to_value, read_pending_view, history_to_value, read_history_view,
}
use project_guardian.Daemon.Control.Client.{
  kind_value, capability_value, call_value, approve_value, protect_value,
}

read_kind-kind_name : (k : ActionKind) → read_kind (kind_name k) ≡ some k
unfolding read_kind kind_name text_eq bytes
read_kind-kind_name ActionKind.file_read = refl
read_kind-kind_name ActionKind.file_write = refl
read_kind-kind_name ActionKind.exec = refl
read_kind-kind_name ActionKind.http_request = refl
read_kind-kind_name ActionKind.email = refl
read_kind-kind_name ActionKind.payment = refl
read_kind-kind_name ActionKind.delete = refl
read_kind-kind_name ActionKind.other = refl

read_capability-capability_name : (k : Capability) → read_capability (capability_name k) ≡ some k
unfolding read_capability capability_name text_eq bytes
read_capability-capability_name Capability.payment = refl
read_capability-capability_name Capability.credential = refl
read_capability-capability_name Capability.exfiltration = refl
read_capability-capability_name Capability.irreversible_delete = refl
read_capability-capability_name Capability.messaging = refl
read_capability-capability_name Capability.filesystem = refl
read_capability-capability_name Capability.network = refl
read_capability-capability_name Capability.other = refl

nullable-kind_value :
    (k : Option ActionKind) → nullable (λ v. and_then (as_str v) read_kind) (kind_value k) ≡ some k
unfolding nullable kind_value as_str
nullable-kind_value none = refl
nullable-kind_value (some k) = rw (read_kind-kind_name k) refl

nullable-capability_value :
    (k : Option Capability)
    → nullable (λ v. and_then (as_str v) read_capability) (capability_value k) ≡ some k
unfolding nullable capability_value as_str
nullable-capability_value none = refl
nullable-capability_value (some k) = rw (read_capability-capability_name k) refl

-- The daemon reads the call that the client sends, but for its session, which is lost.
pub request_of_value-call_value :
    (c : ToolCall) → request_of_value (call_value c) ≡ some (call c.tool c.args c.kind c.capability)
unfolding request_of_value call_value required defaulted nullable find insert lookup text_eq bytes
    as_str
request_of_value-call_value c =
    rw (nullable-kind_value c.kind) (rw (nullable-capability_value c.capability) refl)

-- The daemon reads the approval and the value that the client sends.
pub request_of_value-approve_value :
    (action_id tool plain_text : Text) (risk : ℕ)
    → risk ≤ 255
    → request_of_value (approve_value action_id tool plain_text risk)
      ≡ some (approve action_id tool plain_text risk)
unfolding request_of_value approve_value required defaulted find lookup text_eq bytes as_str read_u8
    as_u64
request_of_value-approve_value action_id tool plain_text risk small = ground (arith, small)

pub request_of_value-protect_value :
    (value : Text) → request_of_value (protect_value value) ≡ some (protect value)
unfolding request_of_value protect_value required find lookup text_eq bytes as_str
request_of_value-protect_value value = refl

-- A reply to a call is read back as the gateway's outcome.
pub outcome_of-outcome_response :
    (x : GatewayOutcome) → outcome_of (response_to_value (outcome_response x)) ≡ x
unfolding outcome_of response_to_value outcome_response get find text_eq bytes as_str
outcome_of-outcome_response (allowed detail) = refl
outcome_of-outcome_response (blocked reason) = refl
outcome_of-outcome_response (upstream_error e) = refl

strings_of-values_of : (values : List Text) → strings_of (values_of string values) ≡ values
unfolding strings_of values_of as_str
strings_of-values_of [] = refl
strings_of-values_of (x ∷ xs) = ap (λ (ys : List Text). x ∷ ys) (strings_of-values_of xs)

read_values-values_of :
    {A : Type 0} (read : Value → Option A) (to_value : A → Value) (P : A → Type 0)
    → ((x : A) → P x → read (to_value x) ≡ some x)
    → (xs : List A) → All P xs
    → read_values read (values_of to_value xs) ≡ some xs
unfolding read_values values_of
read_values-values_of read to_value P back [] h = refl
read_values-values_of read to_value P back (x ∷ xs) (p, h) =
    rw (back x p) (rw (read_values-values_of read to_value P back xs h) refl)

abbrev pub FitsU8 : PendingView → Type 0
FitsU8 v = v.risk ≤ 255

read-pending_to_value :
    (v : PendingView) → FitsU8 v → read_pending_view (pending_to_value v) ≡ some v
unfolding read_pending_view pending_to_value required find text_eq bytes as_str read_u8 as_u64
read-pending_to_value v small = ground (arith, small)

read-history_to_value : (v : HistoryView) → read_history_view (history_to_value v) ≡ some v
unfolding read_history_view history_to_value required defaulted nullable find text_eq bytes as_str
    as_bool
read-history_to_value v = ground arith

-- What the client reads of a reply is what the daemon put into it: the outcome of a call, the pending
-- approvals if their risks are bytes, the three kinds of flags, the history, and the counts and masked
-- values of the vault.
pub response_to_value-reads_back :
    (x : GatewayOutcome) (vs : List PendingView) (hs : List HistoryView) (b : Bool) (m n : ℕ)
    (values : List Text)
    → All FitsU8 vs
    → (outcome_of (response_to_value (outcome_response x)) ≡ x)
      × (pending_of (response_to_value (Response.pending vs)) ≡ some vs)
      × (history_of (response_to_value (Response.history hs)) ≡ some hs)
      × (flag (bytes "ok") (response_to_value (responded b)) ≡ b)
      × (flag (bytes "approved") (response_to_value (approval b)) ≡ b)
      × (flag (bytes "engaged") (response_to_value (Response.kill_switch b)) ≡ b)
      × (vault_triple (response_to_value (vault m n values)) ≡ (m, n, values))
unfolding pending_of history_of flag vault_triple response_to_value get find text_eq bytes as_bool
    as_u64
response_to_value-reads_back x vs hs b m n values small = (
  outcome_of-outcome_response x,
  read_values-values_of read_pending_view pending_to_value FitsU8 read-pending_to_value vs small,
  read_values-values_of read_history_view history_to_value (λ v. Unit {0})
      (λ v h. read-history_to_value v) hs (All-of _ hs (λ v. tt)),
  refl,
  refl,
  refl,
  ap (λ (xs : List Text). (m, n, xs)) (strings_of-values_of values),
)
