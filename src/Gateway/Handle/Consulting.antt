-- ===== src/Gateway/Handle/Consulting.antt =====
-- Who is consulted in `Gateway::handle` of crates/guardian-mcp-gateway/src/lib.rs, and what it lets through.
use project_guardian.Common.{
  Bool, true, false, not, ◌&&◌, List, [], ◌∷◌, ◌++◌, ◌≡◌, ◌≢◌, refl, arith, sym,
}
use mathlib.Core.List.{append_assoc, append-nil}
use project_guardian.Core.{Action, Decision, allow, ask, deny}
use project_guardian.Gateway.State.{
  ApprovalResponse, approved, denied, Ports, Event, explained, asked, State,
}
use project_guardian.Gateway.Handle.{is_approved, consult}

-- The decision lets the action through: it allows, or asks and a human approves.
abbrev pub permits : Ports → Action → Decision → Bool
permits p action allow = true
permits p action (deny reason) = false
permits p action (ask reason) = elim (p.request_approval action (p.explain action)) [
  | approved ↦ true
  | denied ↦ false
]

-- Who is consulted: for `ask` alone the checker, and then the human.
abbrev pub consulted : Ports → Action → Decision → List Event
consulted p action (ask reason) =
    explained action ∷ asked action (p.request_approval action (p.explain action)) ∷ []
consulted p action _ = []

pub regroup {ℓ} :
    {A : Type ℓ} (xs ys : List A) (y : A) (zs : List A)
    → ((xs ++ ys) ++ y ∷ []) ++ zs ≡ xs ++ (ys ++ y ∷ zs)
regroup xs ys y zs = simp append_assoc

is_approved_lem :
    (r : ApprovalResponse) → is_approved r ≡ elim r [ approved ↦ true | denied ↦ false ]
unfolding is_approved
is_approved_lem approved = refl
is_approved_lem denied = refl

pub consult_lem :
    (p : Ports) (action : Action) (d : Decision) (s : State)
    → let k = consult p action d s in
      (k.proceed ≡ permits p action d)
      × (k.state.audit ≡ s.audit)
      × (k.state.events ≡ s.events ++ consulted p action d)
unfolding consult
consult_lem p action allow s = (refl, refl, sym (append-nil s.events))
consult_lem p action (deny reason) s = (refl, refl, sym (append-nil s.events))
consult_lem p action (ask reason) s = (
  is_approved_lem (p.request_approval action (p.explain action)),
  refl,
  append_assoc s.events (explained action ∷ [])
      (asked action (p.request_approval action (p.explain action)) ∷ []),
)

-- A decision that does not allow lets an action through by a human's approval alone.
pub permits-ne-allow :
    (p : Ports) (action : Action) (d : Decision)
    → d ≢ allow
    → permits p action d ≡ true
    → p.request_approval action (p.explain action) ≡ approved
permits-ne-allow p action allow h e = absurd (h refl)
permits-ne-allow p action (ask reason) h e = ground arith
permits-ne-allow p action (deny reason) h e = ground arith

pub through_of : (b t a : Bool) → b ≡ not (t && a) → b ≡ false → t ≡ true
through_of b t a e h = ground arith
