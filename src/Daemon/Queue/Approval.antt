-- ===== src/Daemon/Queue/Approval.antt =====
-- No request of crates/guardian-daemon/src/lib.rs returns approved unless a human approved it.
use project_guardian.Common.{
  subst, ap, ◌∙◌, sym, ap₂, Option-cases, All-imp, length-map, Text, Bool-cases, All-map, ℕ, ◌<◌,
  List, [], ◌∷◌, length, All, Exists, ◌⊎◌, inl, inr, ◌≡◌, refl, arith, ◌==◌, ==_iff, map,
}
use project_guardian.Gateway.State.{ApprovalResponse, approved}
use project_guardian.Daemon.Queue.{
  Explanation, new, PendingApproval, Entry, ApprovalQueue, Phase, returned, Request, World,
  entry_of, without, at_phase, change_phase, request, deliver, respond_to, respond, poll, expire,
  clean_up, Command, submits, responds, polls, expires, cleans_up, step, after,
}
use project_guardian.Daemon.Queue.Entries.{
  Holds, Matches, All-without, All-removed_ids, entry_of_lem, deliver_lem, Holds-woken,
  Holds-expired, Holds-closed,
}

-- The queue shows the approval.
abbrev pub Shown : PendingApproval → World → Type 0
Shown info w = Exists (λ (e : Entry). e.info ≡ info) w.queue.pending

-- At some time somebody answered `approved` to the id of the approval while the queue showed it.
pub Approved : ℕ → PendingApproval → List Command → Type 0
Approved timeout info [] = ⊥
Approved timeout info (c ∷ history) =
    ((c ≡ responds info.id approved) × Shown info (after timeout history))
    ⊎ Approved timeout info history

module _ (timeout : ℕ) where
  abbrev pub IsSound : List Command → ℕ → List Entry → Request → Type 0
  IsSound history count entries q =
      (q.number < count)
      × All (Matches q) entries
      × (Holds q.phase → Approved timeout q.info history)

  abbrev pub AreSound : List Command → World → Type 0
  AreSound history w =
      All (λ (e : Entry). e.responder < length w.requests) w.queue.pending
      × All (IsSound history (length w.requests) w.queue.pending) w.requests

  Approved-later :
      (c : Command) (history : List Command) (info : PendingApproval)
      → Approved timeout info history
      → Approved timeout info (c ∷ history)
  unfolding Approved
  Approved-later c history info a = inr a

  -- A command that neither adds an entry nor puts an approval into a channel keeps the world sound.
  AreSound-change :
      (c : Command) (history : List Command) (n count : ℕ) (change : Phase → Phase)
      (entries entries' : List Entry) (rs : List Request)
      → ((P : Entry → Type 0) → All P entries → All P entries')
      → ((q : Request)
          → q.number ≡ n
          → IsSound history count entries q
          → Holds (change q.phase)
          → Approved timeout q.info (c ∷ history))
      → All (IsSound history count entries) rs
      → All (IsSound (c ∷ history) count entries') (map (at_phase n change) rs)
  unfolding at_phase
  AreSound-change c history n count change entries entries' rs fewer approve h =
      All-map (IsSound history count entries) (IsSound (c ∷ history) count entries')
        (at_phase n change) rs
        (λ q (bound, match, held). elim (Bool-cases (q.number == n)) [
          | inl same ↦ rw same (
            bound,
            fewer (Matches q) match,
            approve q ((==_iff q.number n).0 same) (bound, match, held),
          )
          | inr other ↦
              rw other
                (bound, fewer (Matches q) match, λ p. Approved-later c history q.info (held p))
        ])
        h

  -- The world after such a command.
  AreSound-changed :
      (c : Command) (history : List Command) (w : World) (n : ℕ) (change : Phase → Phase)
      (q' : ApprovalQueue)
      → ((P : Entry → Type 0) → All P w.queue.pending → All P q'.pending)
      → ((q : Request)
          → q.number ≡ n
          → IsSound history (length w.requests) w.queue.pending q
          → Holds (change q.phase)
          → Approved timeout q.info (c ∷ history))
      → AreSound history w
      → AreSound (c ∷ history) (record { queue = q'; requests = change_phase n change w.requests })
  unfolding change_phase
  AreSound-changed c history w n change q' fewer approve (numbered, sound) =
      rw (length-map (at_phase n change) w.requests) (
        fewer _ numbered,
        AreSound-change c history n (length w.requests) change w.queue.pending q'.pending w.requests
            fewer approve sound,
      )

  AreSound-later :
      (c : Command) (history : List Command) (w : World)
      → AreSound history w
      → AreSound (c ∷ history) w
  AreSound-later c history w (numbered, sound) = (
    numbered,
    All-imp _ _ w.requests
        (λ q (bound, match, held). (bound, match, λ h. Approved-later c history q.info (held h)))
        sound,
  )

  Approved-now :
      (id : ℕ) (response : ApprovalResponse) (history : List Command) (info found : PendingApproval)
      → found.id ≡ id
      → found ≡ info
      → response ≡ approved
      → Shown found (after timeout history)
      → Approved timeout info (responds id response ∷ history)
  unfolding Approved
  Approved-now id response history info found i m agrees shown = inl (
    ap₂ responds (sym i ∙ ap (λ (x : PendingApproval). x.id) m) agrees,
    subst (λ x. Shown x (after timeout history)) m shown,
  )

  AreSound-request :
      (action_id tool : Text) (explanation : Explanation) (history : List Command) (w : World)
      → AreSound history w
      → AreSound
          (submits action_id tool explanation ∷ history)
          (request action_id tool explanation w)
  unfolding request
  AreSound-request action_id tool explanation history w (numbered, sound) =
      let entries = without w.queue.counter w.queue.pending in
      let older = All-without _ w.queue.counter w.queue.pending numbered in
      (
        (omega arith, All-imp _ _ entries (λ e p. omega (arith, p)) older),
        (
          (
            omega arith,
            ((λ same. refl), All-imp _ _ entries (λ e p same. ground (arith, p, same)) older),
            λ h. absurd h,
          ),
          All-imp _ _ w.requests
              (λ q (bound, match, held). (
                omega (arith, bound),
                (
                  (λ same. ground (arith, bound, same)),
                  All-without (Matches q) w.queue.counter w.queue.pending match,
                ),
                λ h. Approved-later _ history q.info (held h),
              ))
              sound,
        ),
      )

  AreSound-respond :
      (id : ℕ) (response : ApprovalResponse) (history : List Command)
      → AreSound history (after timeout history)
      → AreSound (responds id response ∷ history) (respond id response (after timeout history)).1
  unfolding respond respond_to
  AreSound-respond id response history sound =
      let w = after timeout history in
      elim (Option-cases (entry_of id w.queue.pending)) [
        | inl none_found ↦ rw none_found (AreSound-later (responds id response) history w sound)
        | inr (e, found) ↦ rw found (
            AreSound-changed (responds id response) history w e.responder (deliver response)
              (record w.queue { pending = without id w.queue.pending })
              (λ P h. All-without P id w.queue.pending h)
              (λ q same (bound, match, held) h.
                let (i, m, shown) = entry_of_lem (Matches q) id w.queue.pending e found match in
                elim (deliver_lem response q.phase h) [
                  | inl agrees ↦
                      Approved-now id response history q.info e.info i (m (sym same)) agrees shown
                  | inr before ↦ Approved-later (responds id response) history q.info (held before)
                ])
              sound)
      ]

  AreSound-step :
      (c : Command) (history : List Command)
      → AreSound history (after timeout history)
      → AreSound (c ∷ history) (step c (after timeout history))
  unfolding step poll expire clean_up
  AreSound-step (submits action_id tool explanation) history sound =
      AreSound-request action_id tool explanation history (after timeout history) sound
  AreSound-step (responds id response) history sound = AreSound-respond id response history sound
  AreSound-step (polls n) history sound =
      let w = after timeout history in
      AreSound-changed (polls n) history w n _ w.queue (λ P h. h)
        (λ q same (bound, match, held) h.
          Approved-later (polls n) history q.info (held (Holds-woken _ q.phase h)))
        sound
  AreSound-step (expires n) history sound =
      let w = after timeout history in
      AreSound-changed (expires n) history w n _ w.queue (λ P h. h)
        (λ q same (bound, match, held) h.
          Approved-later (expires n) history q.info (held (Holds-expired q.phase h)))
        sound
  AreSound-step (cleans_up n) history sound =
      let w = after timeout history in
      AreSound-changed (cleans_up n) history w n _ (step (cleans_up n) w).queue
        (λ P h. All-removed_ids P n w.requests w.queue.pending h)
        (λ q same (bound, match, held) h.
          Approved-later (cleans_up n) history q.info (held (Holds-closed q.phase h)))
        sound

  pub AreSound-after : (history : List Command) → AreSound history (after timeout history)
  unfolding after new
  AreSound-after [] = (tt, tt)
  AreSound-after (c ∷ history) = AreSound-step c history (AreSound-after history)

  -- A request that has returned `approved` was approved by somebody, under its id, while the queue
  -- showed that very action, tool and explanation, whatever the history.
  pub returned-Approved :
      (history : List Command)
      → All
          (λ (q : Request). q.phase ≡ returned approved → Approved timeout q.info history)
          (after timeout history).requests
  returned-Approved history =
      All-imp _ _ (after timeout history).requests
        (λ q (bound, match, held) e. held (subst Holds (sym e) tt)) (AreSound-after history).1
