-- ===== src/Daemon/Queue.antt =====
-- crates/guardian-daemon/src/lib.rs: `ApprovalQueue`, its requests as tasks that wait on a one-shot
-- channel, and the interleavings of requests, answers and timeouts as lists of commands. A command is
-- one critical section: `request` up to its wait, `respond`, and the ends of a wait. The channel and
-- the timer are those of the crate `tokio`: a value in the channel is received before the timer is
-- looked at, and a send fails once the receiver is gone, which it is when the wait ends.
pub mod Entries
pub mod Approval
pub mod Answering
pub mod Open
pub mod Live
pub mod Delivery
pub mod Ending
use project_guardian.Common.{
  ℕ, ◌+◌, ◌%◌, ◌^◌, ◌==◌, Bool, true, false, ◌&&◌, not, Option, none, some, List, [], ◌∷◌, Text,
  map, any, length, if◌then◌else◌,
}
use project_guardian.Core.{Action}
use project_guardian.Gateway.State.{Explanation, ApprovalResponse, approved, denied}

pub record PendingApproval : Type 0 where
  pub id : ℕ
  pub action_id : Text
  pub tool : Text
  pub explanation : Explanation

-- The responder is the number of the request that waits at the other end.
pub record Entry : Type 0 where
  pub info : PendingApproval
  pub responder : ℕ

pub record ApprovalQueue : Type 0 where
  pub pending : List Entry
  pub counter : ℕ
  pub timeout : ℕ
  pub notifications : Bool

-- `ApprovalQueue::new`
unfoldable pub new : ℕ → ApprovalQueue
new timeout = record { pending = []; counter = 0; timeout = timeout; notifications = false }

unfoldable pub with_notifications : Bool → ApprovalQueue → ApprovalQueue
with_notifications on q = record q { notifications = on }

-- `pending`: what the queue shows
unfoldable pub pending : ApprovalQueue → List PendingApproval
pending q = map (λ (e : Entry). e.info) q.pending

-- Where a request is: it waits, perhaps with a value in its channel; its timer has elapsed or its
-- sender is gone, so that its receiver is dropped, but its entry is not yet removed; or it has returned.
pub data Phase : Type 0 where
  waiting : Option ApprovalResponse → Phase
  failing : Phase
  returned : ApprovalResponse → Phase

pub record Request : Type 0 where
  pub number : ℕ
  pub info : PendingApproval
  pub phase : Phase

pub record World : Type 0 where
  pub queue : ApprovalQueue
  pub requests : List Request

-- `HashMap::get`
unfoldable pub entry_of : ℕ → List Entry → Option Entry
entry_of id [] = none
entry_of id (e ∷ es) = if e.info.id == id then some e else entry_of id es

-- `HashMap::remove`
unfoldable pub without : ℕ → List Entry → List Entry
without id [] = []
without id (e ∷ es) = let rest = without id es in if e.info.id == id then rest else e ∷ rest

unfoldable pub at_phase : ℕ → (Phase → Phase) → Request → Request
at_phase n change q = if q.number == n then record q { phase = change q.phase } else q

pub change_phase : ℕ → (Phase → Phase) → List Request → List Request
unfolding at_phase
change_phase n change requests = map (at_phase n change) requests

-- `request` up to its wait; `insert` drops the sender of an older entry with the same id.
unfoldable pub request : Text → Text → Explanation → World → World
unfolding without
request action_id tool explanation w =
    let n = length w.requests in
    let id = w.queue.counter in
    let info : PendingApproval = record {
      id = id;
      action_id = action_id;
      tool = tool;
      explanation = explanation;
    } in
    record {
      queue = record w.queue {
        pending = record { info = info; responder = n } ∷ without id w.queue.pending;
        counter = (id + 1) % 2 ^ 64;
      };
      requests = record { number = n; info = info; phase = waiting none } ∷ w.requests;
    }

-- `QueueApprover::request_approval` up to its wait
unfoldable pub request_approval : Action → Explanation → World → World
request_approval action explanation w = request action.id action.tool explanation w

-- `send` puts the value into the channel of a request that still waits.
unfoldable pub deliver : ApprovalResponse → Phase → Phase
deliver response (waiting none) = waiting (some response)
deliver response p = p

pub is_open : Phase → Bool
is_open (waiting none) = true
is_open _ = false

-- `send`: whether the receiver is still there
unfoldable pub accepts : ℕ → List Request → Bool
unfolding is_open
accepts n requests = any (λ (q : Request). (q.number == n) && is_open q.phase) requests

respond_to : ℕ → ApprovalResponse → World → Option Entry → Bool × World
unfolding accepts change_phase deliver without
respond_to id response w none = (false, w)
respond_to id response w (some e) = (
  accepts e.responder w.requests,
  record {
    queue = record w.queue { pending = without id w.queue.pending };
    requests = change_phase e.responder (deliver response) w.requests;
  },
)

-- Removing the entry and sending on its channel are two steps of the source; what happens between them
-- comes to the same before both.
unfoldable pub respond : ℕ → ApprovalResponse → World → Bool × World
unfolding respond_to entry_of
respond id response w = respond_to id response w (entry_of id w.queue.pending)

-- A wait that is woken: it receives the value, or learns that its sender is gone.
pub woken : Bool → Phase → Phase
woken has_sender (waiting (some response)) = returned response
woken false (waiting none) = failing
woken _ p = p

unfoldable pub poll : ℕ → World → World
unfolding change_phase woken
poll n w =
    let has_sender = any (λ (e : Entry). e.responder == n) w.queue.pending in
    record w { requests = change_phase n (woken has_sender) w.requests }

-- A wait whose time has passed.
pub expired : Phase → Phase
expired (waiting (some response)) = returned response
expired (waiting none) = failing
expired p = p

unfoldable pub expire : ℕ → World → World
unfolding change_phase expired
expire n w = record w { requests = change_phase n expired w.requests }

-- The failing branch of `request`: the entry is removed and the request denied.
pub closed : Phase → Phase
closed failing = returned denied
closed p = p

pub is_failing : Phase → Bool
is_failing failing = true
is_failing _ = false

pub removed_ids : ℕ → List Request → List Entry → List Entry
unfolding is_failing without
removed_ids n [] entries = entries
removed_ids n (q ∷ requests) entries =
    let rest = removed_ids n requests entries in
    if (q.number == n) && is_failing q.phase then without q.info.id rest else rest

unfoldable pub clean_up : ℕ → World → World
unfolding change_phase closed removed_ids
clean_up n w = record {
  queue = record w.queue { pending = removed_ids n w.requests w.queue.pending };
  requests = change_phase n closed w.requests;
}

pub data Command : Type 0 where
  submits : Text → Text → Explanation → Command
  responds : ℕ → ApprovalResponse → Command
  polls expires cleans_up : ℕ → Command

unfoldable pub step : Command → World → World
step (submits action_id tool explanation) w = request action_id tool explanation w
step (responds id response) w = (respond id response w).1
step (polls n) w = poll n w
step (expires n) w = expire n w
step (cleans_up n) w = clean_up n w

-- The world after a history, whose last command comes first.
unfoldable pub after : ℕ → List Command → World
after timeout [] = record { queue = new timeout; requests = [] }
after timeout (c ∷ history) = step c (after timeout history)
