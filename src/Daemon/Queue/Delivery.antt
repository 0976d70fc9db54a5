-- ===== src/Daemon/Queue/Delivery.antt =====
-- What the approvals that the queue of crates/guardian-daemon/src/lib.rs shows belong to, and which answers
-- are delivered.
use mathlib.Core.Option.{some-injective}
use project_guardian.Common.{
  Bool, ◌⊎◌, ◌≢◌, sym, subst, some, none, ==_iff, ◌==◌, Bool-cases, some, ◌≢◌, ℕ, true, List, [],
  ◌∷◌, All, Exists, All-imp, inl, inr, ◌≡◌, refl, arith, Option-cases, ◌↔◌,
}
use project_guardian.Gateway.State.{ApprovalResponse}
use project_guardian.Daemon.Queue.{
  Phase, waiting, failing, returned, Entry, Request, World, entry_of, without, request, deliver,
  respond_to, respond, poll, expire, removed_ids, clean_up, Command, submits, responds, polls,
  expires, cleans_up, step, after, new,
}
use project_guardian.Daemon.Queue.Entries.{All-without}
use project_guardian.Daemon.Queue.Answering.{Has-same, Has}
use project_guardian.Daemon.Queue.Open.{IsHeld, accepts_iff, without-id}
use project_guardian.Daemon.Queue.Live.{AreLive-after}

-- The ids of the entries differ.
abbrev AreUnique : List Entry → Type 0
AreUnique [] = Unit {0}
AreUnique (e ∷ entries) = All (λ (x : Entry). x.info.id ≢ e.info.id) entries × AreUnique entries

AreUnique-without :
    (id : ℕ) (entries : List Entry) → AreUnique entries → AreUnique (without id entries)
unfolding without
AreUnique-without id [] h = tt
AreUnique-without id (e ∷ entries) (other, h) =
    ground (arith, All-without _ id entries other, AreUnique-without id entries h)

AreUnique-removed_ids :
    (n : ℕ) (rs : List Request) (entries : List Entry)
    → AreUnique entries
    → AreUnique (removed_ids n rs entries)
unfolding removed_ids
AreUnique-removed_ids n [] entries h = h
AreUnique-removed_ids n (q ∷ rs) entries h =
    let rest = AreUnique-removed_ids n rs entries h in
    ground (arith, rest, AreUnique-without q.info.id (removed_ids n rs entries) rest)

respond-pending :
    (P : List Entry → Type 0) (id : ℕ) (response : ApprovalResponse) (w : World)
    → P w.queue.pending
    → P (without id w.queue.pending)
    → P (respond id response w).1.queue.pending
unfolding respond respond_to
respond-pending P id response w before after = elim (Option-cases (entry_of id w.queue.pending)) [
  | inl none_found ↦ rw none_found before
  | inr (found, e) ↦ rw e after
]

AreUnique-step :
    (c : Command) (w : World) → AreUnique w.queue.pending → AreUnique (step c w).queue.pending
unfolding step request respond respond_to poll expire clean_up
AreUnique-step (submits action_id tool explanation) w h = (
  without-id w.queue.counter w.queue.pending,
  AreUnique-without w.queue.counter w.queue.pending h,
)
AreUnique-step (responds id response) w h =
    respond-pending AreUnique id response w h (AreUnique-without id w.queue.pending h)
AreUnique-step (polls n) w h = h
AreUnique-step (expires n) w h = h
AreUnique-step (cleans_up n) w h = AreUnique-removed_ids n w.requests w.queue.pending h

entry_of-Exists :
    (P : Entry → Type 0) (id : ℕ) (entries : List Entry) (e : Entry)
    → entry_of id entries ≡ some e
    → P e
    → Exists (λ (x : Entry). (x.info.id ≡ id) × P x) entries
unfolding entry_of
entry_of-Exists P id [] e found p = ground (arith, found)
entry_of-Exists P id (x ∷ entries) e found p = elim (Bool-cases (x.info.id == id)) [
  | inl same ↦
      inl ((==_iff x.info.id id).0 same, subst P (sym (some-injective _ _ (rw same at found))) p)
  | inr other ↦ inr (entry_of-Exists P id entries e (rw other at found) p)
]

another_id :
    (P : Entry → Type 0) (id : ℕ) (entries : List Entry)
    → All (λ (x : Entry). x.info.id ≢ id) entries
    → Exists (λ (x : Entry). (x.info.id ≡ id) × P x) entries
    → ⊥
another_id P id [] h e = e
another_id P id (x ∷ entries) (other, h) (inl (same, p)) = other same
another_id P id (x ∷ entries) (other, h) (inr e) = another_id P id entries h e

-- Where the ids differ, an entry with the id is the one that is found.
Exists-entry_of :
    (P : Entry → Type 0) (id : ℕ) (entries : List Entry)
    → AreUnique entries
    → Exists (λ (x : Entry). (x.info.id ≡ id) × P x) entries
    → (e : Entry) × (entry_of id entries ≡ some e) × P e
unfolding entry_of
Exists-entry_of P id [] h e = absurd e
Exists-entry_of P id (x ∷ entries) (other, h) (inl (same, p)) =
    (x, rw ((==_iff x.info.id id).1 same) refl, p)
Exists-entry_of P id (x ∷ entries) (other, h) (inr later) = elim (Bool-cases (x.info.id == id)) [
  | inl same ↦ absurd (
      another_id P id entries
        (subst (λ i. All (λ (y : Entry). y.info.id ≢ i) entries) ((==_iff x.info.id id).0 same)
          other)
        later)
  | inr different ↦
      let (e, found, p) = Exists-entry_of P id entries h later in (e, rw different found, p)
]

held_phase : (p : Phase) → IsHeld p → (p ≡ waiting none) ⊎ (p ≡ failing)
held_phase (waiting none) h = inl refl
held_phase (waiting (some r)) h = absurd h
held_phase failing h = inr refl
held_phase (returned r) h = absurd h

held_cases :
    (n : ℕ) (rs : List Request)
    → Exists (λ (q : Request). (q.number ≡ n) × IsHeld q.phase) rs
    → Exists (λ (q : Request). (q.number ≡ n) × (q.phase ≡ waiting none)) rs
      ⊎ Exists (λ (q : Request). (q.number ≡ n) × (q.phase ≡ failing)) rs
held_cases n [] h = absurd h
held_cases n (q ∷ rs) (inl (same, held)) = elim (held_phase q.phase held) [
  | inl e ↦ inl (inl (same, e))
  | inr e ↦ inr (inl (same, e))
]
held_cases n (q ∷ rs) (inr h) = elim (held_cases n rs h) [
  | inl e ↦ inl (inr e)
  | inr e ↦ inr (inr e)
]

-- The request waits without an answer; the answer is in its channel.
abbrev pub Waits : ℕ → World → Type 0
Waits n w = Has (λ p. p ≡ waiting none) n w

abbrev pub IsGiven : ApprovalResponse → ℕ → World → Type 0
IsGiven response n w = Has (λ p. p ≡ waiting (some response)) n w

respond-found :
    (id : ℕ) (response : ApprovalResponse) (w : World) (e : Entry)
    → entry_of id w.queue.pending ≡ some e
    → respond id response w ≡ respond_to id response w (some e)
unfolding respond
respond-found id response w e found = rw found refl

deliver-waiting :
    (response : ApprovalResponse) (p : Phase)
    → p ≡ waiting none
    → deliver response p ≡ waiting (some response)
unfolding deliver
deliver-waiting response p h = rw h refl

respond-IsGiven :
    (id : ℕ) (response : ApprovalResponse) (w : World) (e : Entry)
    → entry_of id w.queue.pending ≡ some e
    → Waits e.responder w
    → IsGiven response e.responder (respond id response w).1
unfolding respond_to
respond-IsGiven id response w e found waits =
    subst (λ (t : Bool × World). IsGiven response e.responder t.1)
      (sym (respond-found id response w e found))
      (Has-same (λ p. p ≡ waiting none) (λ p. p ≡ waiting (some response)) e.responder
        (deliver response) w.requests (deliver-waiting response) waits)

-- The answer to the id finds the request of the entry waiting, and is in its channel afterwards.
abbrev pub IsReached : ℕ → ApprovalResponse → World → Entry → Type 0
IsReached id response w e =
    Waits e.responder w × IsGiven response e.responder (respond id response w).1

respond_iff :
    (id : ℕ) (response : ApprovalResponse) (w : World)
    → AreUnique w.queue.pending
    → ((respond id response w).0 ≡ true)
      ↔ Exists (λ (e : Entry). (e.info.id ≡ id) × IsReached id response w e) w.queue.pending
unfolding respond_to
respond_iff id response w unique = (
  λ delivered. elim (Option-cases (entry_of id w.queue.pending)) [
    | inl none_found ↦ absurd (unfold respond in ground (arith, rw none_found at delivered))
    | inr (e, found) ↦
        let waits =
          (accepts_iff e.responder w.requests).0
            (rw (respond-found id response w e found) at delivered) in
        entry_of-Exists (IsReached id response w) id w.queue.pending e found
          (waits, respond-IsGiven id response w e found waits)
  ],
  λ shown.
      let (e, found, (waits, _)) =
        Exists-entry_of (IsReached id response w) id w.queue.pending unique shown in
      rw (respond-found id response w e found) ((accepts_iff e.responder w.requests).1 waits),
)

module _ (timeout : ℕ) where
  AreUnique-after : (history : List Command) → AreUnique (after timeout history).queue.pending
  unfolding after new
  AreUnique-after [] = tt
  AreUnique-after (c ∷ history) = AreUnique-step c (after timeout history) (AreUnique-after history)

  -- Whatever the history, each approval that the queue shows belongs to a request that waits without an
  -- answer, or whose wait has failed and which is about to remove it; and an answer is delivered exactly
  -- when the queue shows its id and the request behind that approval still waits without an answer, and
  -- then it is in the channel of that request.
  pub respond-delivers_iff :
      (history : List Command) (id : ℕ) (response : ApprovalResponse)
      → let w = after timeout history in
        All
          (λ (e : Entry). Waits e.responder w ⊎ Has (λ p. p ≡ failing) e.responder w)
          w.queue.pending
        × (((respond id response w).0 ≡ true)
            ↔ Exists (λ (e : Entry). (e.info.id ≡ id) × IsReached id response w e) w.queue.pending)
  respond-delivers_iff history id response =
      let w = after timeout history in
      (
        All-imp _ _ w.queue.pending (λ e (held, _). held_cases e.responder w.requests held)
            (AreLive-after timeout history),
        respond_iff id response w (AreUnique-after history),
      )
