-- ===== src/Audit/Log/History.antt =====
-- Histories of crates/guardian-audit/src/lib.rs: what a log holds and answers after a run of appends,
-- some of which the database refuses.
use project_guardian.Common.{
  subst, ◌≢◌, inl, inr, ◌⊎◌, ℕ, ◌+◌, Bool, true, false, Option, none, some, List, [], ◌∷◌, ◌++◌,
  ◌≡◌, Text, ok, err, Result, length, arith, refl, ap, ◌∙◌, sym, if◌then◌else◌,
}
use project_guardian.Crypto.{Ed25519, Ed25519Laws}
use mathlib.Core.List.{append-nil, append_assoc}
use project_guardian.Audit.Log.{
  AuditError, Row, Database, empty, append, signed, head_message, verify_head_sig, verify,
  verify_chain,
}
use project_guardian.Audit.Log.Chain.{
  length-contents, contents, IsIntact, IsIntact-verify_chain, empty-IsIntact, appended,
  append-IsIntact, contents-append,
}

-- The appends that the database was available for.
abbrev pub kept : List (Bool × Text) → List Text
kept [] = []
kept ((available, content) ∷ events) = if available then content ∷ kept events else kept events

module _ (ed : Ed25519) (blake3 : Text → Text) where
  open ed use {SigningKey}

  -- A caller that goes on after an error has the log as it was.
  after : Database → Result (ℕ × Database) AuditError → Database
  after d (ok (seq, d')) = d'
  after d (err e) = d

  unfoldable pub record_all : Option SigningKey → List (Bool × Text) → Database → Database
  unfolding after
  record_all key [] d = d
  record_all key ((available, content) ∷ events) d =
      record_all key events (after d (append ed blake3 key available content d))

  -- The row that an append adds.
  abbrev row_of : Text → Database → Row
  row_of content d = record {
    seq = d.last_seq + 1;
    content = content;
    prev_hash = d.last_hash;
    hash = blake3 (d.last_hash ++ content);
  }

  step_kept :
      (key : Option SigningKey) (content : Text) (d : Database)
      → IsIntact blake3 d
      → after d (append ed blake3 key true content d) ≡ appended ed blake3 key content d
  unfolding after
  step_kept key content d i = rw (append-IsIntact ed blake3 key content d i).0

  step_refused :
      (key : Option SigningKey) (content : Text) (d : Database)
      → after d (append ed blake3 key false content d) ≡ d
  unfolding after append
  step_refused key content d = refl

  record_all_from :
      (key : Option SigningKey) (events : List (Bool × Text)) (d : Database)
      → IsIntact blake3 d
      → IsIntact blake3 (record_all key events d)
        × (contents (record_all key events d).rows ≡ contents d.rows ++ kept events)
  unfolding record_all
  record_all_from key [] d i = (i, sym (append-nil (contents d.rows)))
  record_all_from key ((true, content) ∷ events) d i =
      let (j, e) =
        record_all_from key events (appended ed blake3 key content d)
          (append-IsIntact ed blake3 key content d i).1 in
      subst
        (λ s.
          IsIntact blake3 (record_all key events s)
          × (contents (record_all key events s).rows ≡ contents d.rows ++ content ∷ kept events))
        (sym (step_kept key content d i))
        (
          j,
          e
              ∙ ap (λ cs. cs ++ kept events) (contents-append d.rows (row_of content d))
              ∙ append_assoc (contents d.rows) (content ∷ []) (kept events),
        )
  record_all_from key ((false, content) ∷ events) d i =
      subst
        (λ s.
          IsIntact blake3 (record_all key events s)
          × (contents (record_all key events s).rows ≡ contents d.rows ++ kept events))
        (sym (step_refused key content d)) (record_all_from key events d i)

  -- After any run of appends to a new log the chain verifies, and the rows hold exactly the entries
  -- that the database took, in order.
  pub record_all-verifies :
      (key : Option SigningKey) (events : List (Bool × Text))
      → let d = record_all key events empty in
        (verify_chain blake3 d ≡ ok (length (kept events), d.last_hash))
        × (contents d.rows ≡ kept events)
  unfolding empty
  record_all-verifies key events =
      let d = record_all key events empty in
      let (i, e) = record_all_from key events empty (empty-IsIntact blake3) in
      let head : ℕ → Result (ℕ × Text) AuditError = λ n. ok (n, d.last_hash) in
      (
        IsIntact-verify_chain blake3 i
            ∙ ap head (i.counted ∙ sym (length-contents d.rows) ∙ ap length e),
        e,
      )

  -- The stored signature, once there are rows, is of the head.
  abbrev IsSigned : Option SigningKey → Database → Type 0
  IsSigned none d = Unit
  IsSigned (some k) d =
      (d.rows ≡ []) ⊎ (d.head_sig ≡ some (Ed25519.sign ed k (head_message d.last_seq d.last_hash)))

  appended-IsSigned :
      (key : Option SigningKey) (content : Text) (d : Database)
      → IsSigned key (appended ed blake3 key content d)
  unfolding signed
  appended-IsSigned none content d = tt
  appended-IsSigned (some k) content d = inr refl

  record_all-IsSigned :
      (key : Option SigningKey) (events : List (Bool × Text)) (d : Database)
      → IsIntact blake3 d
      → IsSigned key d
      → IsSigned key (record_all key events d)
  unfolding record_all
  record_all-IsSigned key [] d i g = g
  record_all-IsSigned key ((true, content) ∷ events) d i g = rw (step_kept key content d i) (
      record_all-IsSigned key events (appended ed blake3 key content d)
        (append-IsIntact ed blake3 key content d i).1 (appended-IsSigned key content d))
  record_all-IsSigned key ((false, content) ∷ events) d i g =
      subst (λ s. IsSigned key (record_all key events s)) (sym (step_refused key content d))
        (record_all-IsSigned key events d i g)

  empty-IsSigned : (key : Option SigningKey) → IsSigned key empty
  unfolding empty
  empty-IsSigned none = tt
  empty-IsSigned (some k) = inl refl

  verify-IsSigned :
      (laws : Ed25519Laws ed) (key : Option SigningKey) (d : Database)
      → IsIntact blake3 d
      → IsSigned key d
      → d.rows ≢ []
      → verify ed blake3 key d ≡ ok tt
  unfolding verify verify_head_sig
  verify-IsSigned laws none d i g h = rw (IsIntact-verify_chain blake3 i)
  verify-IsSigned laws (some k) d i (inl e) h = absurd (h e)
  verify-IsSigned laws (some k) d i (inr e) h =
      let m = head_message d.last_seq d.last_hash in
      rw (IsIntact-verify_chain blake3 i, e)
        (ground (arith, laws.check-sign k m, laws.length-sign k m))

  -- After any run of appends to a new log that kept an entry, the log verifies, its signature
  -- included where it was opened with a key.
  pub record_all-verify :
      (laws : Ed25519Laws ed) (key : Option SigningKey) (events : List (Bool × Text))
      → kept events ≢ []
      → verify ed blake3 key (record_all key events empty) ≡ ok tt
  record_all-verify laws key events h =
      let d = record_all key events empty in
      let (i, e) = record_all_from key events empty (empty-IsIntact blake3) in
      verify-IsSigned laws key d i
        (record_all-IsSigned key events empty (empty-IsIntact blake3) (empty-IsSigned key))
        (λ none_kept. h (sym (record_all-verifies key events).1 ∙ ap contents none_kept))
