-- ===== src/Daemon/Queue/Live.antt =====
-- What the entries that the queue of crates/guardian-daemon/src/lib.rs shows belong to: to requests that wait
-- or whose wait has failed.
use project_guardian.Common.{
  Text, ℕ, ◌<◌, List, [], ◌∷◌, All, All-imp, All-and, All-swap, inl, inr, refl, arith, ◌∙◌, length,
  Option-cases,
}
use project_guardian.Gateway.State.{ApprovalResponse}
use project_guardian.Daemon.Queue.{
  Explanation, Entry, Request, World, entry_of, without, request, deliver, respond_to, respond,
  poll, expire, removed_ids, clean_up, Command, submits, responds, polls, expires, cleans_up, step,
  after, new,
}
use project_guardian.Daemon.Queue.Entries.{All-without, All-removed_ids, Matches, entry_of_lem}
use project_guardian.Daemon.Queue.Approval.{AreSound-after}
use project_guardian.Daemon.Queue.Answering.{Has-any}
use project_guardian.Daemon.Queue.Open.{
  IsHeld, IsLive, AreLive, without-id, removed_ids-failing, Has-else, Has-closed, IsHeld-woken,
  IsHeld-expired,
}

AreLive-request :
    (action_id tool : Text) (explanation : Explanation) (w : World)
    → All (λ (e : Entry). e.responder < length w.requests) w.queue.pending
    → AreLive w
    → AreLive (request action_id tool explanation w)
unfolding request
AreLive-request action_id tool explanation w numbered live =
    let id = w.queue.counter in
    let entries = without id w.queue.pending in
    let older = All-without _ id w.queue.pending (All-and _ _ w.queue.pending numbered live) in
    (
      (
        inl (refl, tt),
        (
          (λ same. refl),
          All-imp _ _ entries (λ e (bound, _) same. ground (arith, bound, same)) older,
        ),
      ),
      All-imp _ _ entries
          (λ e (bound, (l, same_id)). (
            inr l,
            ((λ same. ground (arith, bound, same)), All-without _ id w.queue.pending same_id),
          ))
          older,
    )

AreLive-respond :
    (id : ℕ) (response : ApprovalResponse) (w : World)
    → AreLive w
    → AreLive (respond id response w).1
unfolding respond respond_to
AreLive-respond id response w live = elim (Option-cases (entry_of id w.queue.pending)) [
  | inl none_found ↦ rw none_found live
  | inr (found, e) ↦
      let entries = without id w.queue.pending in
      let (i, (_, own), _) = entry_of_lem (IsLive w) id w.queue.pending found e live in
      let facts =
        All-and _ _ entries (without-id id w.queue.pending)
          (All-without _ id w.queue.pending (All-and _ _ w.queue.pending own live)) in
      rw e (
        All-imp _ _ entries
          (λ x (other, (same, (l, coherent))). (
            Has-else IsHeld x.responder found.responder (deliver response) w.requests
                (λ r. other (same r ∙ i)) l,
            All-without _ id w.queue.pending coherent,
          ))
          facts)
]

AreLive-poll : (n : ℕ) (w : World) → AreLive w → AreLive (poll n w)
unfolding poll
AreLive-poll n w live =
    All-imp _ _ w.queue.pending
      (λ e (l, c). (Has-any IsHeld e.responder n _ w.requests (IsHeld-woken _) l, c)) live

AreLive-expire : (n : ℕ) (w : World) → AreLive w → AreLive (expire n w)
unfolding expire
AreLive-expire n w live =
    All-imp _ _ w.queue.pending
      (λ e (l, c). (Has-any IsHeld e.responder n _ w.requests IsHeld-expired l, c)) live

AreLive-clean_up :
    (n : ℕ) (w : World)
    → All (λ (q : Request). All (Matches q) w.queue.pending) w.requests
    → AreLive w
    → AreLive (clean_up n w)
unfolding clean_up
AreLive-clean_up n w match live =
    let entries = removed_ids n w.requests w.queue.pending in
    let matched = All-swap Matches w.requests w.queue.pending match in
    let facts =
      All-and _ _ entries (removed_ids-failing n w.requests w.queue.pending) (
        All-removed_ids _ n w.requests w.queue.pending
          (All-and _ _ w.queue.pending matched live)) in
    All-imp _ _ entries
      (λ e (left, (m, (l, c))). (
        Has-closed n e w.requests (All-and _ _ w.requests m left) l,
        All-removed_ids _ n w.requests w.queue.pending c,
      ))
      facts

module _ (timeout : ℕ) where
  AreLive-step :
      (c : Command) (history : List Command)
      → AreLive (after timeout history)
      → AreLive (step c (after timeout history))
  unfolding step
  AreLive-step (submits action_id tool explanation) history live =
      AreLive-request action_id tool explanation (after timeout history)
        (AreSound-after timeout history).0 live
  AreLive-step (responds id response) history live =
      AreLive-respond id response (after timeout history) live
  AreLive-step (polls n) history live = AreLive-poll n (after timeout history) live
  AreLive-step (expires n) history live = AreLive-expire n (after timeout history) live
  AreLive-step (cleans_up n) history live =
      let w = after timeout history in
      AreLive-clean_up n w
        (All-imp _ _ w.requests (λ q (_, match, _). match) (AreSound-after timeout history).1) live

  pub AreLive-after : (history : List Command) → AreLive (after timeout history)
  unfolding after new
  AreLive-after [] = tt
  AreLive-after (c ∷ history) = AreLive-step c history (AreLive-after history)
