-- ===== src/Vault/Store/Texts.antt =====
-- The search of crates/guardian-broker/src/vault.rs for its marks: where the first one stands.
use native.Mathlib.Numerals.{unary_clauses}
use project_guardian.Common.{
  ap, ◌≤◌, ◌-◌, ℕ, zero, suc, ◌-◌, true, false, none, some, [], ◌∷◌, ◌++◌, Text, take, drop,
  starts_with, contains, All, ◌≡◌, ◌≢◌, refl, arith,
}
use project_guardian.Vault.Spans.{slice}
use project_guardian.Vault.Store.{opening, closing, split_at_first}

-- The opening mark has no border: it does not begin in a text and end in a mark behind it.
starts_with-opening :
    (c : ℕ) (w x : Text)
    → starts_with ((c ∷ w) ++ (opening ++ x)) opening ≡ starts_with (c ∷ w) opening
unfolding starts_with
starts_with-opening c [] x = ground arith
starts_with-opening c (d ∷ []) x = ground arith
starts_with-opening c (d ∷ e ∷ []) x = ground arith
starts_with-opening c (d ∷ e ∷ f ∷ []) x = ground arith
starts_with-opening c (d ∷ e ∷ f ∷ g ∷ []) x = ground arith
starts_with-opening c (d ∷ e ∷ f ∷ g ∷ h ∷ w) x = refl

pub split_at_first-opening :
    (w x : Text)
    → contains w opening ≡ false
    → split_at_first opening (w ++ (opening ++ x)) ≡ some (w, x)
unfolding split_at_first contains
split_at_first-opening [] x h = unfold starts_with in refl
split_at_first-opening (c ∷ w) x h =
    ground (arith, starts_with-opening c w x, split_at_first-opening w x)

pub split_at_first-eq-none : (p s : Text) → contains s p ≡ false → split_at_first p s ≡ none
unfolding split_at_first contains
split_at_first-eq-none p [] h = ground arith
split_at_first-eq-none p (c ∷ s) h = ground (arith, split_at_first-eq-none p s)

-- No closing bracket.
abbrev pub IsOpaque : Text → Type 0
IsOpaque id = All (λ c. c ≢ b']') id

pub split_at_first-closing :
    (id x : Text) → IsOpaque id → split_at_first closing (id ++ (closing ++ x)) ≡ some (id, x)
unfolding split_at_first starts_with
split_at_first-closing [] x h = refl
split_at_first-closing (c ∷ id) x h = ground (arith, split_at_first-closing id x)

starts_with-take : (n : ℕ) (s p : Text) → starts_with (take n s) p ≡ true → starts_with s p ≡ true
unfolding starts_with
starts_with-take n s [] h = refl
starts_with-take zero s (q ∷ p) h = ground arith
starts_with-take (suc n) [] (q ∷ p) h = ground arith
starts_with-take (suc n) (c ∷ s) (q ∷ p) h = ground (arith, starts_with-take n s p)

pub contains-take :
    (n : ℕ) (s : Text) (q : ℕ) (p : Text)
    → contains s (q ∷ p) ≡ false
    → contains (take n s) (q ∷ p) ≡ false
unfolding contains
contains-take zero s q p h = unfold starts_with in refl
contains-take (suc n) [] q p h = h
contains-take (suc n) (c ∷ s) q p h =
    ground (arith, starts_with-take (suc n) (c ∷ s) (q ∷ p), contains-take n s q p)

pub contains-drop : (n : ℕ) (s p : Text) → contains s p ≡ false → contains (drop n s) p ≡ false
unfolding contains
contains-drop zero s p h = h
contains-drop (suc n) [] p h = h
contains-drop (suc n) (c ∷ s) p h = ground (arith, contains-drop n s p)

take-drop : (n : ℕ) (s : Text) → take n s ++ drop n s ≡ s
take-drop zero s = refl
take-drop (suc n) [] = refl
take-drop (suc n) (c ∷ s) = ap (λ (t : Text). c ∷ t) (take-drop n s)

take-nil : (n : ℕ) → take {A = ℕ} n [] ++ [] ≡ []
take-nil zero = refl
take-nil (suc n) = refl

-- A text from a place on is what stands up to a later place, and the text from there.
pub slice-drop : (p s : ℕ) (text : Text) → p ≤ s → slice text p s ++ drop s text ≡ drop p text
slice-drop zero s text h = simp unary_clauses (take-drop s text)
slice-drop (suc p) zero text h = absurd (omega arith)
slice-drop (suc p) (suc s) [] h = take-nil (suc s - suc p)
slice-drop (suc p) (suc s) (c ∷ text) h = simp unary_clauses (slice-drop p s text (omega arith))
