-- ===== src/Daemon/Queue/Ending.antt =====
-- How every request of the queue of crates/guardian-daemon/src/lib.rs ends, once its time has passed.
use project_guardian.Common.{
  ℕ, ◌<◌, ◌++◌, ◌==◌, Option, some, none, unwrap_or, List, [], ◌∷◌, All, Exists, All-imp, length,
  length-map, inl, inr, ◌≡◌, ◌≢◌, refl, arith, subst, sym, ◌∙◌, Bool-cases,
}
use project_guardian.Gateway.State.{ApprovalResponse, denied}
use project_guardian.Daemon.Queue.{
  Entry, Phase, waiting, failing, returned, Request, World, at_phase, change_phase, request,
  respond_to, respond, poll, expire, expired, clean_up, closed, Command, submits, responds, polls,
  expires, cleans_up, step, after, new,
}
use project_guardian.Daemon.Queue.Answering.{
  Has, Has-same, Has-after, IsReturned, IsDenying, IsDenying-IsKept, returned-IsKept,
}
use project_guardian.Daemon.Queue.Open.{IsHeld}
use project_guardian.Daemon.Queue.Live.{AreLive-after}

-- The requests are numbered in the order in which they came.
abbrev AreNumbered : List Request → Type 0
AreNumbered [] = Unit {0}
AreNumbered (q ∷ rs) = (q.number ≡ length rs) × AreNumbered rs

at_phase-number :
    (n : ℕ) (change : Phase → Phase) (q : Request) → (at_phase n change q).number ≡ q.number
unfolding at_phase
at_phase-number n change q = elim (Bool-cases (q.number == n)) [
  | inl e ↦ rw e refl
  | inr e ↦ rw e refl
]

AreNumbered-change :
    (n : ℕ) (change : Phase → Phase) (rs : List Request)
    → AreNumbered rs
    → AreNumbered (change_phase n change rs)
unfolding change_phase
AreNumbered-change n change [] h = h
AreNumbered-change n change (q ∷ rs) (number, h) = (
  at_phase-number n change q ∙ number ∙ sym (length-map (at_phase n change) rs),
  AreNumbered-change n change rs h,
)

AreNumbered-respond :
    (id : ℕ) (response : ApprovalResponse) (w : World) (o : Option Entry)
    → AreNumbered w.requests
    → AreNumbered (respond_to id response w o).1.requests
unfolding respond_to
AreNumbered-respond id response w none h = h
AreNumbered-respond id response w (some e) h = AreNumbered-change e.responder _ w.requests h

Has-imp :
    (P Q : Phase → Type 0) (n : ℕ) (rs : List Request)
    → ((p : Phase) → P p → Q p)
    → Exists (λ (q : Request). (q.number ≡ n) × P q.phase) rs
    → Exists (λ (q : Request). (q.number ≡ n) × Q q.phase) rs
Has-imp P Q n [] f h = h
Has-imp P Q n (q ∷ rs) f (inl (same, p)) = inl (same, f q.phase p)
Has-imp P Q n (q ∷ rs) f (inr h) = inr (Has-imp P Q n rs f h)

module _ (timeout : ℕ) where
  AreNumbered-after : (history : List Command) → AreNumbered (after timeout history).requests
  unfolding after step new request respond poll expire clean_up
  AreNumbered-after [] = tt
  AreNumbered-after (submits action_id tool explanation ∷ history) =
      (refl, AreNumbered-after history)
  AreNumbered-after (responds id response ∷ history) =
      AreNumbered-respond id response (after timeout history) _ (AreNumbered-after history)
  AreNumbered-after (polls n ∷ history) = AreNumbered-change n _ _ (AreNumbered-after history)
  AreNumbered-after (expires n ∷ history) = AreNumbered-change n _ _ (AreNumbered-after history)
  AreNumbered-after (cleans_up n ∷ history) = AreNumbered-change n _ _ (AreNumbered-after history)

  Exists-bound :
      (P : Phase → Type 0) (n : ℕ) (rs : List Request)
      → AreNumbered rs
      → Exists (λ (q : Request). (q.number ≡ n) × P q.phase) rs
      → n < length rs
  Exists-bound P n [] numbered h = absurd h
  Exists-bound P n (q ∷ rs) (number, numbered) (inl (same, p)) = omega (arith, number, same)
  Exists-bound P n (q ∷ rs) (number, numbered) (inr h) =
      let bound = Exists-bound P n rs numbered h in omega (arith, bound)

  held_returned : (p : Phase) → IsHeld p → IsReturned p → ⊥
  held_returned (waiting none) held ended = ended
  held_returned (waiting (some r)) held ended = ended
  held_returned failing held ended = ended
  held_returned (returned r) held ended = held

  -- A request is at one phase.
  one_phase :
      (n : ℕ) (rs : List Request)
      → AreNumbered rs
      → Exists (λ (q : Request). (q.number ≡ n) × IsHeld q.phase) rs
      → Exists (λ (q : Request). (q.number ≡ n) × IsReturned q.phase) rs
      → ⊥
  one_phase n [] numbered held ended = held
  one_phase n (q ∷ rs) numbered (inl (_, held)) (inl (_, ended)) = held_returned q.phase held ended
  one_phase n (q ∷ rs) (number, numbered) (inl (same, held)) (inr ended) =
      let bound = Exists-bound IsReturned n rs numbered ended in omega (arith, number, same, bound)
  one_phase n (q ∷ rs) (number, numbered) (inr held) (inl (same, ended)) =
      let bound = Exists-bound IsHeld n rs numbered held in omega (arith, number, same, bound)
  one_phase n (q ∷ rs) (number, numbered) (inr held) (inr ended) =
      one_phase n rs numbered held ended

  -- A request that has returned has no entry.
  returned-entries :
      (n : ℕ) (r : ApprovalResponse) (history : List Command)
      → Has (λ p. p ≡ returned r) n (after timeout history)
      → All (λ (e : Entry). e.responder ≢ n) (after timeout history).queue.pending
  returned-entries n r history ended =
      let w = after timeout history in
      All-imp _ _ w.queue.pending
        (λ e (held, _) same.
          one_phase n w.requests (AreNumbered-after history) (subst (λ m. Has IsHeld m w) same held)
            (Has-imp (λ p. p ≡ returned r) IsReturned n w.requests
              (λ p e. subst IsReturned (sym e) tt) ended))
        (AreLive-after timeout history)

  expired-none : (p : Phase) → p ≡ waiting none → IsDenying (expired p)
  unfolding expired
  expired-none p e = rw e tt

  expired-some : (r : ApprovalResponse) (p : Phase) → p ≡ waiting (some r) → expired p ≡ returned r
  unfolding expired
  expired-some r p e = rw e refl

  closed-IsDenying : (p : Phase) → IsDenying p → closed p ≡ returned denied
  unfolding closed
  closed-IsDenying (waiting r) h = absurd h
  closed-IsDenying failing h = refl
  closed-IsDenying (returned r) h = ground (arith, h)

  closed-returned : (r : ApprovalResponse) (p : Phase) → p ≡ returned r → closed p ≡ returned r
  unfolding closed
  closed-returned r p e = rw e refl

  ended_lem :
      (n : ℕ) (o : Option ApprovalResponse) (history between : List Command)
      → Has (λ p. p ≡ waiting o) n (after timeout history)
      → Has
          (λ p. p ≡ returned (unwrap_or o denied))
          n
          (after timeout (cleans_up n ∷ (between ++ (expires n ∷ history))))
  unfolding after step expire clean_up
  ended_lem n none history between h =
      Has-same IsDenying (λ p. p ≡ returned denied) n closed _ closed-IsDenying
        (Has-after timeout IsDenying n between (expires n ∷ history) IsDenying-IsKept
          (Has-same (λ p. p ≡ waiting none) IsDenying n expired _ expired-none h))
  ended_lem n (some r) history between h =
      Has-same (λ p. p ≡ returned r) (λ p. p ≡ returned r) n closed _ (closed-returned r)
        (Has-after timeout (λ p. p ≡ returned r) n between (expires n ∷ history) (returned-IsKept r)
          (Has-same (λ p. p ≡ waiting (some r)) (λ p. p ≡ returned r) n expired _ (expired-some r)
            h))

  -- A request that waits when its timer fires, and that is then cleaned up, has returned the answer that it
  -- was given before, or a denial if it was given none, and stays so, whatever else happens in between and
  -- afterwards; and the queue shows no entry of it any more.
  pub expires-returned :
      (n : ℕ) (o : Option ApprovalResponse) (history between later : List Command)
      → Has (λ p. p ≡ waiting o) n (after timeout history)
      → let w = after timeout (later ++ (cleans_up n ∷ (between ++ (expires n ∷ history)))) in
        Has (λ p. p ≡ returned (unwrap_or o denied)) n w
        × All (λ (e : Entry). e.responder ≢ n) w.queue.pending
  expires-returned n o history between later h =
      let ended =
        Has-after timeout (λ p. p ≡ returned (unwrap_or o denied)) n later
          (cleans_up n ∷ (between ++ (expires n ∷ history))) (returned-IsKept (unwrap_or o denied))
          (ended_lem n o history between h) in
      (
        ended,
        returned-entries n (unwrap_or o denied)
            (later ++ (cleans_up n ∷ (between ++ (expires n ∷ history)))) ended,
      )
