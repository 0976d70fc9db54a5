-- ===== src/Audit/Log/Chain.antt =====
-- The chain of crates/guardian-audit/src/lib.rs without its walk: which logs verify, and that appending
-- keeps them so.
use project_guardian.Common.{
  length-append, ◌<◌, Result-cases, inl, inr, ℕ, ◌+◌, true, Option, some, List, [], ◌∷◌, ◌++◌, ◌≡◌,
  ◌↔◌, Text, text_eq_iff, ok, length, arith, refl, ap, ◌∙◌, sym,
}
use project_guardian.Crypto.{Ed25519}
use project_guardian.Audit.Log.{
  suc, Row, Database, genesis, empty, insert_row, chain_hash, Walk, check_row, walk, verify_chain,
  append, signed,
}

abbrev pub contents : List Row → List Text
contents [] = []
contents (r ∷ rows) = r.content ∷ contents rows

pub length-contents : (rows : List Row) → length (contents rows) ≡ length rows
length-contents [] = refl
length-contents (r ∷ rows) = ap suc (length-contents rows)

pub contents-append :
    (rows : List Row) (r : Row) → contents (rows ++ r ∷ []) ≡ contents rows ++ r.content ∷ []
contents-append [] r = refl
contents-append (s ∷ rows) r = ap (λ cs. s.content ∷ cs) (contents-append rows r)

module _ (blake3 : Text → Text) where
  -- The hash of a history.
  abbrev pub fold_hash : Text → List Text → Text
  fold_hash h [] = h
  fold_hash h (c ∷ cs) = fold_hash (blake3 (h ++ c)) cs

  -- The rows that follow number `n` and hash `h` are numbered on, linked and hashed.
  abbrev pub IsLinked : ℕ → Text → List Row → Type 0
  IsLinked n h [] = Unit
  IsLinked n h (r ∷ rows) =
      (r.seq ≡ n + 1)
      × (r.prev_hash ≡ h)
      × (r.hash ≡ blake3 (h ++ r.content))
      × IsLinked (n + 1) r.hash rows

  -- The walk between two rows.
  abbrev between : ℕ → Text → Walk blake3
  between n h = record { expected = n + 1; prev = h; last_seq = n; last_hash = h }

  check_row_iff :
      (n : ℕ) (h : Text) (r : Row) (w : Walk blake3)
      → (check_row blake3 (between n h) r ≡ ok w) ↔ (
          (r.seq ≡ n + 1)
          × (r.prev_hash ≡ h)
          × (r.hash ≡ blake3 (h ++ r.content))
          × (w ≡ between (n + 1) r.hash))
  unfolding check_row
  check_row_iff n h r w =
      ground (arith, text_eq_iff r.prev_hash h, text_eq_iff (blake3 (h ++ r.content)) r.hash)

  walk_cons :
      (n : ℕ) (h : Text) (r : Row) (rows : List Row) (w : Walk blake3)
      → (walk blake3 (between n h) (r ∷ rows) ≡ ok w) ↔ (
          (r.seq ≡ n + 1)
          × (r.prev_hash ≡ h)
          × (r.hash ≡ blake3 (h ++ r.content))
          × (walk blake3 (between (n + 1) r.hash) rows ≡ ok w))
  unfolding walk
  walk_cons n h r rows w = elim (Result-cases (check_row blake3 (between n h) r)) [
    | inl (v, e) ↦ ground (arith, check_row_iff n h r v)
    | inr (x, e) ↦ ground (arith, check_row_iff n h r (between (n + 1) r.hash))
  ]

  walk_iff :
      (n : ℕ) (h : Text) (rows : List Row) (w : Walk blake3)
      → (walk blake3 (between n h) rows ≡ ok w)
        ↔ (IsLinked n h rows × (w ≡ between (n + length rows) (fold_hash h (contents rows))))
  unfolding walk
  walk_iff n h [] w = ground arith
  walk_iff n h (r ∷ rows) w = ground (arith, walk_cons n h r rows w, walk_iff (n + 1) r.hash rows w)

  -- A log verifies exactly when its rows are numbered from 1, linked from the genesis hash and hashed
  -- as they say, and the head records how many they are and the hash of the whole history; what the
  -- verification returns is that head.
  pub verify_chain-eq-ok_iff :
      (d : Database) (n : ℕ) (h : Text)
      → (verify_chain blake3 d ≡ ok (n, h)) ↔ (
          IsLinked 0 genesis d.rows
          × (d.last_seq ≡ length d.rows)
          × (d.last_hash ≡ fold_hash genesis (contents d.rows))
          × (n ≡ d.last_seq)
          × (h ≡ d.last_hash))
  unfolding verify_chain
  verify_chain-eq-ok_iff d n h = elim (Result-cases (walk blake3 (between 0 genesis) d.rows)) [
    | inl (w, e) ↦ ground (
      arith,
      e,
      walk_iff 0 genesis d.rows w,
      text_eq_iff d.last_hash (fold_hash genesis (contents d.rows)),
    )
    | inr (x, e) ↦ ground (
      arith,
      e,
      walk_iff 0 genesis d.rows (between (0 + length d.rows) (fold_hash genesis (contents d.rows))),
    )
  ]

  insert_row-IsLinked :
      (n : ℕ) (h : Text) (rows : List Row) (r : Row)
      → IsLinked n h rows
      → n + length rows < r.seq
      → insert_row r rows ≡ some (rows ++ r ∷ [])
  unfolding insert_row
  insert_row-IsLinked n h [] r l m = refl
  insert_row-IsLinked n h (s ∷ rows) r l m =
      ground (arith, insert_row-IsLinked (n + 1) s.hash rows r)

  IsLinked-append :
      (n : ℕ) (h : Text) (rows : List Row) (r : Row)
      → IsLinked n h rows
      → r.seq ≡ n + length rows + 1
      → r.prev_hash ≡ fold_hash h (contents rows)
      → r.hash ≡ blake3 (fold_hash h (contents rows) ++ r.content)
      → IsLinked n h (rows ++ r ∷ [])
  IsLinked-append n h [] r l a b c = ground arith
  IsLinked-append n h (s ∷ rows) r l a b c = ground (arith, IsLinked-append (n + 1) s.hash rows r)

  fold_hash-append :
      (h : Text) (cs : List Text) (c : Text)
      → fold_hash h (cs ++ c ∷ []) ≡ blake3 (fold_hash h cs ++ c)
  fold_hash-append h [] c = refl
  fold_hash-append h (d ∷ cs) c = fold_hash-append (blake3 (h ++ d)) cs c

  -- The log verifies, its head's signature apart.
  pub record IsIntact (d : Database) : Type 0 where
    pub linked : IsLinked 0 genesis d.rows
    pub counted : d.last_seq ≡ length d.rows
    pub headed : d.last_hash ≡ fold_hash genesis (contents d.rows)

  pub IsIntact-verify_chain :
      {d : Database} → IsIntact d → verify_chain blake3 d ≡ ok (d.last_seq, d.last_hash)
  IsIntact-verify_chain {d} i =
      (verify_chain-eq-ok_iff d d.last_seq d.last_hash).1
        (i.linked, i.counted, i.headed, refl, refl)

  pub verify_chain-IsIntact :
      {d : Database} {n : ℕ} {h : Text} → verify_chain blake3 d ≡ ok (n, h) → IsIntact d
  verify_chain-IsIntact {d} {n} {h} e =
      let f = (verify_chain-eq-ok_iff d n h).0 e in
      record { linked = f.0; counted = f.1; headed = f.2 }

  pub empty-IsIntact : IsIntact empty
  unfolding empty
  empty-IsIntact = record { linked = tt; counted = refl; headed = refl }

module _ (ed : Ed25519) (blake3 : Text → Text) where
  open ed use {SigningKey}

  -- The log after an append.
  abbrev pub appended : Option SigningKey → Text → Database → Database
  appended key content d =
      let hash = blake3 (d.last_hash ++ content) in
      let row : Row = record {
        seq = d.last_seq + 1;
        content = content;
        prev_hash = d.last_hash;
        hash = hash;
      } in
      record {
        rows = d.rows ++ row ∷ [];
        last_seq = d.last_seq + 1;
        last_hash = hash;
        head_sig = signed ed blake3 key (d.last_seq + 1) hash d.head_sig;
      }

  pub append-IsIntact :
      (key : Option SigningKey) (content : Text) (d : Database)
      → IsIntact blake3 d
      → (append ed blake3 key true content d ≡ ok (d.last_seq + 1, appended key content d))
        × IsIntact blake3 (appended key content d)
  unfolding append chain_hash
  append-IsIntact key content d i =
      let hash = blake3 (d.last_hash ++ content) in
      let row : Row = record {
        seq = d.last_seq + 1;
        content = content;
        prev_hash = d.last_hash;
        hash = hash;
      } in
      (
        rw (insert_row-IsLinked blake3 0 genesis d.rows row i.linked (omega (arith, i.counted))),
        record {
          linked =
              IsLinked-append blake3 0 genesis d.rows row i.linked (omega (arith, i.counted))
                i.headed (ap (λ h. blake3 (h ++ content)) i.headed);
          counted = omega (arith, i.counted, length-append d.rows (row ∷ []));
          headed =
              ap (λ h. blake3 (h ++ content)) i.headed
              ∙ sym (fold_hash-append blake3 genesis (contents d.rows) content)
              ∙ sym (ap (fold_hash blake3 genesis) (contents-append d.rows row));
        },
      )
