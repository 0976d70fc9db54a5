-- ===== src/Common/Results.antt =====
-- Rust's `Result`, with the bind of `?`.
use mathlib.Core.Path.{◌≡◌, refl}
use mathlib.Core.Logic.{◌↔◌, ◌⊎◌, inl, inr}
use native.Mathlib.Omega.{arith}

pub data Result (A E : Type 0) : Type 0 where
  ok : A → Result A E
  err : E → Result A E

infixl 5 ◌>>=◌ ◌>>◌
abbrev pub ◌>>=◌ : {A B E : Type 0} → Result A E → (A → Result B E) → Result B E
err e >>= next = err e
ok value >>= next = next value

abbrev pub ◌>>◌ : {B E : Type 0} → Result (Unit {0}) E → Result B E → Result B E
first >> rest = first >>= λ done. rest

pub Result-cases :
    {A E : Type 0} (r : Result A E) → ((a : A) × (r ≡ ok a)) ⊎ ((e : E) × (r ≡ err e))
Result-cases (ok a) = inl (a, refl)
Result-cases (err e) = inr (e, refl)

-- What a chain that succeeds went through.
pub >>=-eq-ok :
    {A B E : Type 0} (r : Result A E) (next : A → Result B E) {result : B}
    → (r >>= next) ≡ ok result
    → (value : A) × (r ≡ ok value) × (next value ≡ ok result)
>>=-eq-ok (err e) next h = ground arith
>>=-eq-ok (ok value) next h = (value, refl, h)

-- A failing `?` chain fails at its first step or after it.
pub >>-eq-err :
    {B E : Type 0} (m : Result (Unit {0}) E) (k : Result B E) {e : E}
    → (m >> k) ≡ err e
    → (m ≡ err e) ⊎ (k ≡ err e)
>>-eq-err (ok _) k h = inr h
>>-eq-err (err x) k h = inl (ground arith)

-- What a chain that succeeds goes through, both ways.
pub >>=-eq-ok_iff :
    {A B E : Type 0} (r : Result A E) (next : A → Result B E) (result : B)
    → ((r >>= next) ≡ ok result) ↔ ((value : A) × (r ≡ ok value) × (next value ≡ ok result))
>>=-eq-ok_iff r next result = (>>=-eq-ok r next, λ (value, e, h). rw e h)

pub ok-injective : {A E : Type 0} {a b : A} → ◌≡◌ {A = Result A E} (ok a) (ok b) → a ≡ b
ok-injective h = ground arith
