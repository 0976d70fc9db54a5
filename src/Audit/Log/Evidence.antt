-- ===== src/Audit/Log/Evidence.antt =====
-- Tamper evidence of crates/guardian-audit/src/lib.rs: a verified head pins the whole history.
use project_guardian.Common.{
  ℕ, List, [], ◌∷◌, ◌++◌, ◌≡◌, ◌≢◌, ◌⊎◌, inl, inr, Text, text_eq, text_eq_iff, ok, length, arith,
  refl, ◌∙◌, sym, Bool-cases,
}
use project_guardian.Audit.Log.{Database, genesis, verify_chain}
use project_guardian.Audit.Log.Chain.{length-contents, contents, fold_hash, verify_chain-eq-ok_iff}

-- Two texts with one hash.
abbrev pub Collision : (Text → Text) → Type 0
Collision blake3 = (x : Text) × (y : Text) × (x ≢ y) × (blake3 x ≡ blake3 y)

append-injective : (p q c d : Text) → length p ≡ length q → p ++ c ≡ q ++ d → (p ≡ q) × (c ≡ d)
append-injective [] [] c d l e = (refl, e)
append-injective [] (b ∷ q) c d l e = absurd (omega arith)
append-injective (a ∷ p) [] c d l e = absurd (omega arith)
append-injective (a ∷ p) (b ∷ q) c d l e = ground (arith, append-injective p q c d)

module _ (blake3 : Text → Text) (length-blake3 : (x : Text) → length (blake3 x) ≡ 32) where
  fold_hash_evidence :
      (p q : Text) (cs ds : List Text)
      → length p ≡ length q
      → length cs ≡ length ds
      → fold_hash blake3 p cs ≡ fold_hash blake3 q ds
      → ((p ≡ q) × (cs ≡ ds)) ⊎ Collision blake3
  fold_hash_evidence p q [] [] l m e = inl (e, refl)
  fold_hash_evidence p q [] (d ∷ ds) l m e = absurd (omega arith)
  fold_hash_evidence p q (c ∷ cs) [] l m e = absurd (omega arith)
  fold_hash_evidence p q (c ∷ cs) (d ∷ ds) l m e =
      elim (fold_hash_evidence (blake3 (p ++ c)) (blake3 (q ++ d)) cs ds
        (length-blake3 (p ++ c) ∙ sym (length-blake3 (q ++ d))) (omega arith) e) [
          | inr collision ↦ inr collision
          | inl same ↦ elim (Bool-cases (text_eq (p ++ c) (q ++ d))) [
            | inl t ↦
                let (pq, cd) = append-injective p q c d l ((text_eq_iff (p ++ c) (q ++ d)).0 t) in
                inl (pq, ground arith)
            | inr t ↦ inr (p ++ c, q ++ d, ground (arith, text_eq_iff (p ++ c) (q ++ d)), same.0)
          ]
        ]

  -- Two logs that verify with the same head hold the same entries in the same order, or they show two
  -- texts with one hash.
  pub verify_chain_evidence :
      (d d' : Database) (n : ℕ) (h : Text)
      → verify_chain blake3 d ≡ ok (n, h)
      → verify_chain blake3 d' ≡ ok (n, h)
      → (contents d.rows ≡ contents d'.rows) ⊎ Collision blake3
  verify_chain_evidence d d' n h e e' =
      let f = (verify_chain-eq-ok_iff blake3 d n h).0 e in
      let f' = (verify_chain-eq-ok_iff blake3 d' n h).0 e' in
      elim (fold_hash_evidence genesis genesis (contents d.rows) (contents d'.rows) refl
        (omega (arith, length-contents d.rows, length-contents d'.rows, f.1, f'.1, f.3, f'.3))
        (sym f.2 ∙ sym f.4 ∙ f'.4 ∙ f'.2)) [ inl same ↦ inl same.1 | inr collision ↦ inr collision ]
