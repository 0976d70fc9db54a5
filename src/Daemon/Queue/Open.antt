-- ===== src/Daemon/Queue/Open.antt =====
-- The requests of the queue of crates/guardian-daemon/src/lib.rs that still have their entries, and those
-- that an answer can still reach.
use project_guardian.Common.{
  some, ◌↔◌, All-of, ℕ, Bool, true, ◌&&◌, none, List, [], ◌∷◌, All, Exists, All-imp, All-and, inl,
  inr, ◌≡◌, ◌≢◌, refl, arith, sym, ap, ◌==◌, ==_iff, Bool-cases,
}
use project_guardian.Daemon.Queue.{
  PendingApproval, Entry, Phase, waiting, failing, returned, Request, World, without, at_phase,
  change_phase, woken, expired, closed, removed_ids, accepts, is_failing, is_open,
}
use project_guardian.Daemon.Queue.Entries.{All-without, Matches}
use project_guardian.Daemon.Queue.Answering.{Has}

-- The request's entry is not yet removed, if nobody took it: it waits without an answer, or its wait has
-- failed.
abbrev pub IsHeld : Phase → Type 0
IsHeld (waiting none) = Unit {0}
IsHeld failing = Unit {0}
IsHeld _ = ⊥

is_open_iff : (p : Phase) → (is_open p ≡ true) ↔ (p ≡ waiting none)
unfolding is_open
is_open_iff (waiting none) = ((λ h. refl), (λ h. refl))
is_open_iff (waiting (some r)) = ground arith
is_open_iff failing = ground arith
is_open_iff (returned r) = ground arith

pub accepts_iff :
    (n : ℕ) (rs : List Request)
    → (accepts n rs ≡ true) ↔ Exists (λ (q : Request). (q.number ≡ n) × (q.phase ≡ waiting none)) rs
unfolding accepts is_open
accepts_iff n [] = ground arith
accepts_iff n (q ∷ rs) = ground (arith, is_open_iff q.phase, accepts_iff n rs)

-- What answers one entry answers no other.
abbrev pub Coheres : List Entry → Entry → Type 0
Coheres entries e = All (λ (x : Entry). x.responder ≡ e.responder → x.info.id ≡ e.info.id) entries

abbrev pub IsLive : World → Entry → Type 0
IsLive w e = Has IsHeld e.responder w × Coheres w.queue.pending e

abbrev pub AreLive : World → Type 0
AreLive w = All (IsLive w) w.queue.pending

pub without-id :
    (id : ℕ) (entries : List Entry) → All (λ (e : Entry). e.info.id ≢ id) (without id entries)
unfolding without
without-id id [] = tt
without-id id (e ∷ entries) = ground (arith, without-id id entries)

-- The requests that the removal is for have no entry left.
pub removed_ids-failing :
    (n : ℕ) (rs : List Request) (entries : List Entry)
    → All
        (λ (e : Entry).
          All
            (λ (q : Request). q.number ≡ n → is_failing q.phase ≡ true → e.info.id ≢ q.info.id)
            rs)
        (removed_ids n rs entries)
unfolding removed_ids
removed_ids-failing n [] entries = All-of _ entries (λ e. tt)
removed_ids-failing n (q ∷ rs) entries =
    let rest = removed_ids n rs entries in
    elim (Bool-cases ((q.number == n) && is_failing q.phase)) [
      | inl on ↦ rw on (
          All-imp _ _ (without q.info.id rest) (λ e (other, h). ((λ same failing. other), h))
            (All-and _ _ (without q.info.id rest) (without-id q.info.id rest)
              (All-without _ q.info.id rest (removed_ids-failing n rs entries))))
      | inr off ↦ rw off (
          All-imp _ _ rest (λ e h. ((λ same failing. ground (arith, off, same, failing)), h))
            (removed_ids-failing n rs entries))
    ]

pub Has-else :
    (P : Phase → Type 0) (n m : ℕ) (change : Phase → Phase) (rs : List Request)
    → n ≢ m
    → Exists (λ (q : Request). (q.number ≡ n) × P q.phase) rs
    → Exists (λ (q : Request). (q.number ≡ n) × P q.phase) (change_phase m change rs)
unfolding change_phase at_phase
Has-else P n m change [] other h = h
Has-else P n m change (q ∷ rs) other (inl (same, p)) = elim (Bool-cases (q.number == m)) [
  | inl e ↦ ground (arith, e, same, other)
  | inr e ↦ inl (rw e (same, p))
]
Has-else P n m change (q ∷ rs) other (inr h) = inr (Has-else P n m change rs other h)

pub closed-IsHeld : (p : Phase) → IsHeld p → (is_failing p ≡ true → ⊥) → IsHeld (closed p)
unfolding closed is_failing
closed-IsHeld (waiting r) o h = o
closed-IsHeld failing o h = absurd (h refl)
closed-IsHeld (returned r) o h = o

-- A held request whose entry is left by the removal stays held.
pub Has-closed :
    (n : ℕ) (e : Entry) (rs : List Request)
    → All
        (λ (q : Request).
          Matches q e × (q.number ≡ n → is_failing q.phase ≡ true → e.info.id ≢ q.info.id))
        rs
    → Exists (λ (q : Request). (q.number ≡ e.responder) × IsHeld q.phase) rs
    → Exists (λ (q : Request). (q.number ≡ e.responder) × IsHeld q.phase) (change_phase n closed rs)
unfolding change_phase at_phase
Has-closed n e [] f h = h
Has-closed n e (q ∷ rs) ((match, left), h) (inl (same, o)) = elim (Bool-cases (q.number == n)) [
  | inl e ↦ inl (
      rw e (
        same,
        closed-IsHeld q.phase o (λ failing.
            left ((==_iff q.number n).0 e) failing
              (ap (λ (x : PendingApproval). x.id) (match (sym same)))),
      ))
  | inr e ↦ inl (rw e (same, o))
]
Has-closed n e (q ∷ rs) (_, h) (inr o) = inr (Has-closed n e rs h o)

pub IsHeld-woken : (b : Bool) (p : Phase) → IsHeld p → IsHeld (woken b p)
unfolding woken
IsHeld-woken b p h = ground (arith, h)

pub IsHeld-expired : (p : Phase) → IsHeld p → IsHeld (expired p)
unfolding expired
IsHeld-expired p h = ground (arith, h)
