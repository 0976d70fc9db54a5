-- ===== src/Daemon/Queue/Answering.antt =====
-- How often an approval of crates/guardian-daemon/src/lib.rs is answered, and what a request keeps.
use project_guardian.Common.{
  ◌==◌, ==_iff, Bool-cases, ◌++◌, Bool, Exists, inr, inl, Option-cases, ℕ, false, none, List, [],
  ◌∷◌, ◌≡◌, refl, true, arith,
}
use project_guardian.Gateway.State.{ApprovalResponse, denied}
use project_guardian.Daemon.Queue.{
  polls, respond_to, polls, expires, responds, cleans_up, submits, poll, clean_up, at_phase,
  Command, request, woken, expire, closed, after, step, expired, change_phase, deliver, Entry,
  Phase, failing, returned, Request, World, entry_of, without, respond_to, respond,
}

entry_of-without : (id : ℕ) (entries : List Entry) → entry_of id (without id entries) ≡ none
unfolding entry_of without
entry_of-without id [] = refl
entry_of-without id (e ∷ entries) = ground (arith, entry_of-without id entries)

-- Once an id is answered, answering it again is refused and changes nothing, whatever the answers,
-- and whether or not the first was delivered.
pub respond-respond :
    (id : ℕ) (first second : ApprovalResponse) (w : World)
    → let w' = (respond id first w).1 in respond id second w' ≡ (false, w')
unfolding respond respond_to
respond-respond id first second w = elim (Option-cases (entry_of id w.queue.pending)) [
  | inl none_found ↦ rw none_found (rw none_found refl)
  | inr (e, found) ↦ rw found (rw (entry_of-without id w.queue.pending) refl)
]

-- The request's wait has failed, or it has returned a denial.
abbrev pub IsDenying : Phase → Type 0
IsDenying failing = Unit {0}
IsDenying (returned denied) = Unit {0}
IsDenying _ = ⊥

abbrev pub IsReturned : Phase → Type 0
IsReturned (returned r) = Unit {0}
IsReturned _ = ⊥

-- The request with this number is at such a phase.
abbrev pub Has : (Phase → Type 0) → ℕ → World → Type 0
Has P n w = Exists (λ (q : Request). (q.number ≡ n) × P q.phase) w.requests

pub Has-same :
    (P Q : Phase → Type 0) (n : ℕ) (change : Phase → Phase) (rs : List Request)
    → ((p : Phase) → P p → Q (change p))
    → Exists (λ (q : Request). (q.number ≡ n) × P q.phase) rs
    → Exists (λ (q : Request). (q.number ≡ n) × Q q.phase) (change_phase n change rs)
unfolding change_phase at_phase
Has-same P Q n change [] f h = h
Has-same P Q n change (q ∷ rs) f (inl (same, p)) =
    inl (rw ((==_iff q.number n).1 same) (same, f q.phase p))
Has-same P Q n change (q ∷ rs) f (inr h) = inr (Has-same P Q n change rs f h)

pub Has-any :
    (P : Phase → Type 0) (n m : ℕ) (change : Phase → Phase) (rs : List Request)
    → ((p : Phase) → P p → P (change p))
    → Exists (λ (q : Request). (q.number ≡ n) × P q.phase) rs
    → Exists (λ (q : Request). (q.number ≡ n) × P q.phase) (change_phase m change rs)
unfolding change_phase at_phase
Has-any P n m change [] f h = h
Has-any P n m change (q ∷ rs) f (inl (same, p)) = elim (Bool-cases (q.number == m)) [
  | inl e ↦ inl (rw e (same, f q.phase p))
  | inr e ↦ inl (rw e (same, p))
]
Has-any P n m change (q ∷ rs) f (inr h) = inr (Has-any P n m change rs f h)

-- The phases are kept by whatever happens to a request.
pub record IsKept (P : Phase → Type 0) : Type 0 where
  pub by_send : (r : ApprovalResponse) (p : Phase) → P p → P (deliver r p)
  pub by_wake : (b : Bool) (p : Phase) → P p → P (woken b p)
  pub by_time : (p : Phase) → P p → P (expired p)
  pub by_end : (p : Phase) → P p → P (closed p)

pub IsDenying-IsKept : IsKept IsDenying
unfolding deliver woken expired closed
IsDenying-IsKept = record {
  by_send = λ r p h. ground arith;
  by_wake = λ b p h. ground arith;
  by_time = λ p h. ground arith;
  by_end = λ p h. ground arith;
}

woken-returned : (b : Bool) (r : ApprovalResponse) → woken b (returned r) ≡ returned r
unfolding woken
woken-returned true r = refl
woken-returned false r = refl

pub returned-IsKept : (r : ApprovalResponse) → IsKept (λ p. p ≡ returned r)
unfolding deliver woken expired closed
returned-IsKept r = record {
  by_send = λ _ p h. rw h refl;
  by_wake = λ b p h. rw h (woken-returned b r);
  by_time = λ p h. rw h refl;
  by_end = λ p h. rw h refl;
}

Has-respond :
    (P : Phase → Type 0) (n id : ℕ) (r : ApprovalResponse) (w : World)
    → IsKept P
    → Has P n w
    → Has P n (respond id r w).1
unfolding respond respond_to
Has-respond P n id r w k h = elim (Option-cases (entry_of id w.queue.pending)) [
  | inl none_found ↦ rw none_found h
  | inr (e, found) ↦ rw found (Has-any P n e.responder (deliver r) w.requests (k.by_send r) h)
]

Has-step :
    (P : Phase → Type 0) (n : ℕ) (c : Command) (w : World)
    → IsKept P
    → Has P n w
    → Has P n (step c w)
unfolding step request poll expire clean_up
Has-step P n (submits a t e) w k h = inr h
Has-step P n (responds id r) w k h = Has-respond P n id r w k h
Has-step P n (polls m) w k h = Has-any P n m _ w.requests (k.by_wake _) h
Has-step P n (expires m) w k h = Has-any P n m _ w.requests k.by_time h
Has-step P n (cleans_up m) w k h = Has-any P n m _ w.requests k.by_end h

module _ (timeout : ℕ) where
  pub Has-after :
      (P : Phase → Type 0) (n : ℕ) (later history : List Command)
      → IsKept P
      → Has P n (after timeout history)
      → Has P n (after timeout (later ++ history))
  unfolding after
  Has-after P n [] history k h = h
  Has-after P n (c ∷ later) history k h =
      Has-step P n c (after timeout (later ++ history)) k (Has-after P n later history k h)
