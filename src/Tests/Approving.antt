-- ===== src/Tests/Approving.antt =====
-- Concrete histories of the queue of crates/guardian-daemon/src/lib.rs.
use project_guardian.Common.{
  none, ◌⊎◌, ◌≢◌, true, false, List, [], ◌∷◌, ◌++◌, All, Exists, inl, ◌≡◌, ◌↔◌, refl, bytes,
}
use project_guardian.Gateway.State.{Explanation, approved, denied}
use project_guardian.Daemon.Queue.{
  Entry, failing, returned, Request, Command, submits, responds, polls, expires, cleans_up, after,
  respond, poll, new, step, request,
}
use project_guardian.Daemon.Queue.Approval.{Approved, returned-Approved}
use project_guardian.Daemon.Queue.Answering.{Has, respond-respond}
use project_guardian.Daemon.Queue.Ending.{expires-returned}
use project_guardian.Daemon.Queue.Delivery.{Waits, IsReached, respond-delivers_iff}

abbrev sample_explanation : Explanation
sample_explanation = record { plain_text = []; risk = 9; rationale = [] }

-- One request, whose approval is sent and received, and another that is not answered.
abbrev sample_history : List Command
sample_history =
    polls 0
    ∷ responds 0 approved
    ∷ submits (bytes "b") (bytes "pay") sample_explanation
    ∷ submits (bytes "a") (bytes "pay") sample_explanation
    ∷ []

returned-Approved_example :
    All
      (λ (q : Request). q.phase ≡ returned approved → Approved 9 q.info sample_history)
      (after 9 sample_history).requests
returned-Approved_example = returned-Approved 9 sample_history

respond-respond_example :
    let w = after 9 sample_history in
    let w' = (respond 1 denied w).1 in respond 1 approved w' ≡ (false, w')
respond-respond_example = respond-respond 1 denied approved (after 9 sample_history)

expires-returned_example :
    let w =
      after 9 (polls 0 ∷ [] ++ (cleans_up 1 ∷ (polls 1 ∷ [] ++ (expires 1 ∷ sample_history)))) in
    Has (λ p. p ≡ returned denied) 1 w × All (λ (e : Entry). e.responder ≢ 1) w.queue.pending
unfolding after step poll respond request new
expires-returned_example =
    expires-returned 9 1 none sample_history (polls 1 ∷ []) (polls 0 ∷ []) (inl (refl, refl))

respond-delivers_iff_example :
    let w = after 9 sample_history in
    All (λ (e : Entry). Waits e.responder w ⊎ Has (λ p. p ≡ failing) e.responder w) w.queue.pending
    × (((respond 1 denied w).0 ≡ true)
        ↔ Exists (λ (e : Entry). (e.info.id ≡ 1) × IsReached 1 denied w e) w.queue.pending)
respond-delivers_iff_example = respond-delivers_iff 9 sample_history 1 denied
