-- ===== src/Broker/Store/Injection.antt =====
-- Where a brokered token goes in crates/guardian-broker/src/lib.rs.
use project_guardian.Common.{
  inr, inl, true, false, none, some, Text, text_eq, ◌≡◌, ◌⊎◌, arith, if◌then◌else◌,
}
use project_guardian.Core.{Value, null, string, object, get, find-insert, end}
use project_guardian.Broker.Store.{Broker, token_for, inject_as}

-- Arguments that can hold a field.
abbrev pub IsFieldable : Value → Type 0
IsFieldable null = Unit
IsFieldable (object ms) = Unit
IsFieldable _ = ⊥

-- Into null arguments or an object the token of a held target is injected: the field then reads as
-- the token, whatever it was, and every other field as before.
pub inject_as-get :
    (b : Broker) (target : Text) (args : Value) (field token j : Text)
    → token_for b target ≡ some token
    → IsFieldable args
    → ((inject_as b target args field).0 ≡ true)
      × (get j (inject_as b target args field).1
          ≡ (if text_eq field j then some (string token) else get j args))
unfolding inject_as token_for get
inject_as-get b target null field token j h f =
    ground (arith, find-insert field j (string token) end)
inject_as-get b target (object ms) field token j h f =
    ground (arith, find-insert field j (string token) ms)
inject_as-get b target _ field token j h f = absurd f

-- Where no token is held, or the arguments are neither null nor an object, nothing is injected and
-- the arguments stay as they were.
pub inject_as_refused :
    (b : Broker) (target : Text) (args : Value) (field : Text)
    → (token_for b target ≡ none) ⊎ (¬ IsFieldable args)
    → inject_as b target args field ≡ (false, args)
unfolding inject_as token_for
inject_as_refused b target null field (inl h) = rw h
inject_as_refused b target null field (inr h) = absurd (h tt)
inject_as_refused b target (object ms) field (inl h) = rw h
inject_as_refused b target (object ms) field (inr h) = absurd (h tt)
inject_as_refused b target _ field h = ground arith
