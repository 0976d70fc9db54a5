-- ===== src/Daemon/Queue/Entries.antt =====
-- The entries of the queue of crates/guardian-daemon/src/lib.rs, and who holds an approval.
use project_guardian.Common.{
  Bool-cases, ℕ, Bool, true, false, none, some, List, [], ◌∷◌, All, Exists, ◌⊎◌, inl, inr, ◌≡◌,
  refl, arith, ◌==◌,
}
use project_guardian.Gateway.State.{ApprovalResponse, approved, denied}
use project_guardian.Daemon.Queue.{
  Entry, Phase, waiting, failing, returned, Request, entry_of, without, deliver, woken, expired,
  closed, removed_ids,
}

-- The approval is in the channel of the request or returned by it.
abbrev pub Holds : Phase → Type 0
Holds (waiting (some approved)) = Unit {0}
Holds (returned approved) = Unit {0}
Holds _ = ⊥

abbrev pub Matches : Request → Entry → Type 0
Matches q e = e.responder ≡ q.number → e.info ≡ q.info

pub All-without :
    (P : Entry → Type 0) (id : ℕ) (entries : List Entry)
    → All P entries
    → All P (without id entries)
unfolding without
All-without P id [] h = tt
All-without P id (e ∷ entries) (p, h) = ground (arith, p, All-without P id entries h)

pub All-removed_ids :
    (P : Entry → Type 0) (n : ℕ) (requests : List Request) (entries : List Entry)
    → All P entries
    → All P (removed_ids n requests entries)
unfolding removed_ids
All-removed_ids P n [] entries h = h
All-removed_ids P n (q ∷ requests) entries h =
    let rest = All-removed_ids P n requests entries h in
    ground (arith, rest, All-without P q.info.id (removed_ids n requests entries) rest)

-- What is said of an entry that is found.
pub entry_of_lem :
    (P : Entry → Type 0) (id : ℕ) (entries : List Entry) (e : Entry)
    → entry_of id entries ≡ some e
    → All P entries
    → (e.info.id ≡ id) × P e × Exists (λ (x : Entry). x.info ≡ e.info) entries
unfolding entry_of
entry_of_lem P id [] e found h = ground (arith, found)
entry_of_lem P id (x ∷ entries) e found (p, h) = elim (Bool-cases (x.info.id == id)) [
  | inl same ↦ ground (arith, found, same, p)
  | inr other ↦
      let (i, q, s) = entry_of_lem P id entries e (ground (arith, found)) h in (i, q, inr s)
]

pub deliver_lem :
    (response : ApprovalResponse) (p : Phase)
    → Holds (deliver response p)
    → (response ≡ approved) ⊎ Holds p
unfolding deliver
deliver_lem approved p h = inl refl
deliver_lem denied (waiting none) h = absurd h
deliver_lem denied (waiting (some r)) h = inr h
deliver_lem denied failing h = inr h
deliver_lem denied (returned r) h = inr h

pub Holds-woken : (has_sender : Bool) (p : Phase) → Holds (woken has_sender p) → Holds p
unfolding woken
Holds-woken has_sender (waiting (some approved)) h = tt
Holds-woken has_sender (waiting (some denied)) h = absurd h
Holds-woken true (waiting none) h = absurd h
Holds-woken false (waiting none) h = absurd h
Holds-woken true failing h = h
Holds-woken false failing h = h
Holds-woken true (returned r) h = h
Holds-woken false (returned r) h = h

pub Holds-expired : (p : Phase) → Holds (expired p) → Holds p
unfolding expired
Holds-expired (waiting (some approved)) h = tt
Holds-expired (waiting (some denied)) h = absurd h
Holds-expired (waiting none) h = absurd h
Holds-expired failing h = h
Holds-expired (returned r) h = h

pub Holds-closed : (p : Phase) → Holds (closed p) → Holds p
unfolding closed
Holds-closed (waiting r) h = h
Holds-closed failing h = absurd h
Holds-closed (returned r) h = h
