-- ===== src/Audit/Log.antt =====
-- crates/guardian-audit/src/lib.rs: the append-only log. The database is its three tables: the rows in
-- the order of their sequence numbers, the head, and the head's signature. A row's number is a
-- natural number here; a stored negative one is an unexpected number like any other.
pub mod Tail
pub mod Chain
pub mod History
pub mod Evidence
use project_guardian.Common.{
  ℕ, zero, suc, ◌+◌, ◌/◌, ◌%◌, ℤ, Bool, true, false, Option, none, some, unwrap_or, List, [], ◌∷◌,
  ◌++◌, ◌==◌, ltb, if◌then◌else◌, Text, bytes, text_eq, Result, ok, err, ◌>>=◌, ◌>>◌, length, take,
  trim,
}
use mathlib.Core.Option
use mathlib.Core.List.{reverse}
use project_guardian.Core.{Action, ActionKind, Decision, allow, ask, deny}
use project_guardian.Core.Wire.{kind_name}
use project_guardian.Crypto.{Ed25519}

pub record AuditEntry : Type 0 where
  pub timestamp_ms : ℤ
  pub action_id : Text
  pub action_kind : Text
  pub decision : Text
  pub decision_reason : Option Text
  pub matched_rule : Option Text
  pub checker_rationale : Option Text
  pub user_response : Option Text
  pub critical : Bool
  pub host : Option Text

unfoldable pub decision_name : Decision → Text
decision_name allow = bytes "allow"
decision_name (ask _) = bytes "ask"
decision_name (deny _) = bytes "deny"

unfoldable pub reason_of : Decision → Option Text
reason_of allow = none
reason_of (ask r) = some r
reason_of (deny r) = some r

-- `AuditEntry::for_decision`; the kind's debug form is its name.
unfoldable pub for_decision :
    Action → Decision → Option Text → Option Text → Option Text → Bool → AuditEntry
unfolding decision_name reason_of kind_name
for_decision action decision matched_rule checker_rationale user_response critical = record {
  timestamp_ms = action.context.timestamp_ms;
  action_id = action.id;
  action_kind = kind_name action.kind;
  decision = decision_name decision;
  decision_reason = reason_of decision;
  matched_rule = matched_rule;
  checker_rationale = checker_rationale;
  user_response = user_response;
  critical = critical;
  host = action.context.host;
}

-- What an inconsistent log shows.
pub data Tampering : Type 0 where
  unexpected_seq : ℕ → ℕ → Tampering
  broken_link : ℕ → Tampering
  content_modified : ℕ → Tampering
  head_mismatch : ℕ → ℕ → Tampering
  signature_missing signature_malformed signature_invalid : Tampering

pub data AuditError : Type 0 where
  db : AuditError
  tampered : Tampering → AuditError
  bad_key : AuditError

pub record Row : Type 0 where
  pub seq : ℕ
  pub content : Text
  pub prev_hash : Text
  pub hash : Text

pub record Database : Type 0 where
  pub rows : List Row
  pub last_seq : ℕ
  pub last_hash : Text
  pub head_sig : Option Text

zeros : ℕ → Text
zeros zero = []
zeros (suc n) = 0 ∷ zeros n

-- 32 zero bytes
unfoldable pub genesis : Text
unfolding zeros
genesis = zeros 32

-- `AuditLog::from_conn` on a new database
unfoldable pub empty : Database
empty = record { rows = []; last_seq = 0; last_hash = genesis; head_sig = none }

-- `INSERT` into the rows: the sequence number is the primary key.
unfoldable pub insert_row : Row → List Row → Option (List Row)
insert_row r [] = some (r ∷ [])
insert_row r (s ∷ rows) =
    let rest = Option.map (λ (rows' : List Row). s ∷ rows') (insert_row r rows) in
    if r.seq == s.seq then none else if ltb r.seq s.seq then some (r ∷ s ∷ rows) else rest

-- `to_le_bytes` of as many bytes
le_bytes : ℕ → ℕ → Text
le_bytes zero n = []
le_bytes (suc k) n = (n % 256) ∷ le_bytes k (n / 256)

unfoldable pub head_message : ℕ → Text → Text
unfolding le_bytes
head_message seq hash = le_bytes 8 seq ++ hash

-- The hash function, and the JSON encoding of entries, are parameters.
module _ (blake3 : Text → Text) where
  unfoldable pub chain_hash : Text → Text → Text
  chain_hash prev content = blake3 (prev ++ content)

  -- The variables of the walk in `verify_chain`.
  pub record Walk : Type 0 where
    pub expected : ℕ
    pub prev : Text
    pub last_seq : ℕ
    pub last_hash : Text

  unfoldable pub check_row : Walk → Row → Result Walk AuditError
  unfolding chain_hash
  check_row w r =
      if r.seq == w.expected
      then (if text_eq r.prev_hash w.prev
          then (if text_eq (chain_hash w.prev r.content) r.hash
              then ok (record {
                expected = w.expected + 1;
                prev = r.hash;
                last_seq = r.seq;
                last_hash = r.hash;
              })
              else err (tampered (content_modified r.seq)))
          else err (tampered (broken_link r.seq)))
      else err (tampered (unexpected_seq w.expected r.seq))

  unfoldable pub walk : Walk → List Row → Result Walk AuditError
  unfolding check_row
  walk w [] = ok w
  walk w (r ∷ rows) = do w' ← check_row w r; walk w' rows

  unfoldable pub start : Walk
  start = record { expected = 1; prev = genesis; last_seq = 0; last_hash = genesis }

  check_head : Database → Walk → Result (ℕ × Text) AuditError
  check_head d w =
      if d.last_seq == w.last_seq
      then (if text_eq d.last_hash w.last_hash
          then ok (w.last_seq, w.last_hash)
          else err (tampered (head_mismatch d.last_seq w.last_seq)))
      else err (tampered (head_mismatch d.last_seq w.last_seq))

  unfoldable pub verify_chain : Database → Result (ℕ × Text) AuditError
  unfolding walk start check_head
  verify_chain d = do w ← walk start d.rows; check_head d w

module _ (ed : Ed25519) (blake3 : Text → Text) where
  open ed use {SigningKey, VerifyingKey, verifying_key, from_bytes, sign, check}

  unfoldable pub signed : Option SigningKey → ℕ → Text → Option Text → Option Text
  unfolding head_message
  signed none seq hash old = old
  signed (some key) seq hash old = some (sign key (head_message seq hash))

  -- `AuditLog::append` of an encoded entry, in one transaction: where the database fails, or holds a
  -- row of the next number already, nothing is changed.
  unfoldable pub append :
      Option SigningKey → Bool → Text → Database → Result (ℕ × Database) AuditError
  unfolding signed chain_hash insert_row
  append key available content d =
      let seq = d.last_seq + 1 in
      let hash = chain_hash blake3 d.last_hash content in
      let row : Row = record {
        seq = seq;
        content = content;
        prev_hash = d.last_hash;
        hash = hash;
      } in
      if available
      then elim (insert_row row d.rows) [
        | none ↦ err db
        | some rows ↦ ok (
          seq,
          record {
            rows = rows;
            last_seq = seq;
            last_hash = hash;
            head_sig = signed key seq hash d.head_sig;
          },
        )
      ]
      else err db

  -- `AuditLog::verify_head_sig`
  unfoldable pub verify_head_sig : Database → ℕ → Text → VerifyingKey → Result (Unit {0}) AuditError
  unfolding head_message
  verify_head_sig d head_seq head_hash key = elim d.head_sig [
    | none ↦ err (tampered signature_missing)
    | some sig ↦
        if length sig == 64
        then (if check key (head_message head_seq head_hash) sig
            then ok tt
            else err (tampered signature_invalid))
        else err (tampered signature_malformed)
  ]

  -- The key of 32 decoded bytes.
  trusted_key : Option Text → Result VerifyingKey AuditError
  trusted_key none = err bad_key
  trusted_key (some key_bytes) =
      if length key_bytes == 32
      then (elim (from_bytes key_bytes) [ none ↦ err bad_key | some key ↦ ok key ])
      else err bad_key

  signature_ok : Option SigningKey → Database → ℕ × Text → Result (Unit {0}) AuditError
  signature_ok none d head = ok tt
  signature_ok (some key) d head = verify_head_sig d head.0 head.1 (verifying_key key)

  -- `AuditLog::verify`
  unfoldable pub verify : Option SigningKey → Database → Result (Unit {0}) AuditError
  unfolding signature_ok
  verify key d = do head ← verify_chain blake3 d; signature_ok key d head

  -- `AuditLog::verify_with_pubkey`; the hexadecimal decoder is a parameter.
  unfoldable pub verify_with_pubkey :
      (Text → Option Text) → Text → Database → Result (Unit {0}) AuditError
  unfolding verify_chain trim trusted_key
  verify_with_pubkey decode_hex trusted d = do
    key ← trusted_key (decode_hex (trim trusted))
    head ← verify_chain blake3 d
    verify_head_sig d head.0 head.1 key

-- `AuditLog::len`
unfoldable pub len : Database → ℕ
len d = length d.rows
