-- ===== src/Broker/Capability/Laws.antt =====
-- What crates/guardian-broker/src/capability.rs lets through, and what each refusal means.
use project_guardian.Common.{
  >>-eq-err, refl, inl, inr, true, false, Option, none, some, ℤ, ◌≤ℤ◌, F64, f64_gt, ok, err, ◌≡◌,
  ◌↔◌, arith,
}
use project_guardian.Broker.Capability.{
  CapabilityRequest, Caveats, CaveatViolation, expired, host_not_allowed, amount_exceeded,
  stale_critical_approval, admits, expiry, host_binding, amount_cap, freshness, check,
}

-- The time is at or after the deadline, if there is one.
abbrev pub IsPast : Option ℤ → ℤ → Type 0
IsPast none now = ⊥
IsPast (some deadline) now = deadline ≤ℤ now

-- Both amounts are there and the requested one is greater.
abbrev pub Exceeds : Option F64 → Option F64 → Type 0
Exceeds (some max) (some got) = f64_gt got max ≡ true
Exceeds _ _ = ⊥

abbrev pub IsStale : Caveats → CapabilityRequest → Type 0
IsStale c req =
    (c.require_fresh_approval_for_critical ≡ true)
    × (req.critical ≡ true)
    × (req.freshly_approved ≡ false)

-- What a refusal says of the request.
abbrev pub Explains : Caveats → CapabilityRequest → CaveatViolation → Type 0
Explains c req expired = IsPast c.not_after_ms req.now_ms
Explains c req (host_not_allowed h) = (h ≡ req.host) × (admits c.allowed_hosts req.host ≡ false)
Explains c req (amount_exceeded max got) =
    (c.max_amount ≡ some max) × (req.amount ≡ some got) × (f64_gt got max ≡ true)
Explains c req stale_critical_approval = IsStale c req

expiry_iff :
    (o : Option ℤ) (req : CapabilityRequest) → (expiry o req ≡ ok tt) ↔ (¬ IsPast o req.now_ms)
unfolding expiry
expiry_iff none req = ground arith
expiry_iff (some deadline) req = ground arith

amount_cap_iff : (max got : Option F64) → (amount_cap max got ≡ ok tt) ↔ (¬ Exceeds max got)
unfolding amount_cap
amount_cap_iff none got = ground arith
amount_cap_iff (some max) none = ground arith
amount_cap_iff (some max) (some got) = ground arith

-- A use is let through exactly where no caveat is violated: not at or after its deadline, to an
-- admitted host, not over the amount, and freshly approved if that is required of a critical action.
pub check-eq-ok_iff :
    (c : Caveats) (req : CapabilityRequest)
    → (check c req ≡ ok tt) ↔ (
        (¬ IsPast c.not_after_ms req.now_ms)
        × (admits c.allowed_hosts req.host ≡ true)
        × (¬ Exceeds c.max_amount req.amount)
        × (¬ IsStale c req))
unfolding check host_binding freshness
check-eq-ok_iff c req =
    ground (arith, expiry_iff c.not_after_ms req, amount_cap_iff c.max_amount req.amount)

expiry-err :
    (o : Option ℤ) (req : CapabilityRequest) (v : CaveatViolation)
    → expiry o req ≡ err v
    → (v ≡ expired) × IsPast o req.now_ms
unfolding expiry
expiry-err none req v h = ground arith
expiry-err (some deadline) req v h = ground arith

amount_cap-err :
    (c : Caveats) (req : CapabilityRequest) (a b : Option F64) (v : CaveatViolation)
    → c.max_amount ≡ a
    → req.amount ≡ b
    → amount_cap a b ≡ err v
    → Explains c req v
unfolding amount_cap
amount_cap-err c req none b v p q h = cc
amount_cap-err c req (some max) none v p q h = cc
amount_cap-err c req (some max) (some got) expired p q h = ground arith
amount_cap-err c req (some max) (some got) (host_not_allowed x) p q h = ground arith
amount_cap-err c req (some max) (some got) (amount_exceeded m g) p q h = ground arith
amount_cap-err c req (some max) (some got) stale_critical_approval p q h = ground arith

host_binding-err :
    (c : Caveats) (req : CapabilityRequest) (v : CaveatViolation)
    → host_binding c req ≡ err v
    → Explains c req v
unfolding host_binding
host_binding-err c req expired h = ground arith
host_binding-err c req (host_not_allowed x) h = ground arith
host_binding-err c req (amount_exceeded m g) h = ground arith
host_binding-err c req stale_critical_approval h = ground arith

freshness-err :
    (c : Caveats) (req : CapabilityRequest) (v : CaveatViolation)
    → freshness c req ≡ err v
    → Explains c req v
unfolding freshness
freshness-err c req expired h = ground arith
freshness-err c req (host_not_allowed x) h = ground arith
freshness-err c req (amount_exceeded m g) h = ground arith
freshness-err c req stale_critical_approval h = ground arith

-- A refusal names a caveat that the request violates.
pub check-Explains :
    (c : Caveats) (req : CapabilityRequest) (v : CaveatViolation)
    → check c req ≡ err v
    → Explains c req v
unfolding check
check-Explains c req v h = elim (>>-eq-err (expiry c.not_after_ms req) _ h) [
  | inl e ↦ let (same, past) = expiry-err c.not_after_ms req v e in rw same past
  | inr h' ↦ elim (>>-eq-err (host_binding c req) _ h') [
    | inl e ↦ host_binding-err c req v e
    | inr h'' ↦ elim (>>-eq-err (amount_cap c.max_amount req.amount) _ h'') [
      | inl e ↦ amount_cap-err c req c.max_amount req.amount v refl refl e
      | inr e ↦ freshness-err c req v e
    ]
  ]
]
