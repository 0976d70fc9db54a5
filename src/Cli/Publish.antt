-- ===== src/Cli/Publish.antt =====
-- crates/guardian-cli/src/main.rs: `run_pack`, which signs and verifies packs of policies. What the file
-- system lets be written is a parameter, as are the random bytes, the JSON texts and the clock; what is
-- printed is left out.
pub mod RoundTrip
use project_guardian.Common.{
  ℕ, ℤ, Bool, true, false, Option, none, some, List, [], ◌∷◌, Text, bytes, trim, Result, ok, err,
  ◌>>=◌, ◌>>◌, if◌then◌else◌,
}
use project_guardian.Core.{ActionKind, Action, string, object, end, member, allow}
use project_guardian.Crypto.{Ed25519, Hex}
use project_guardian.Policy.Schema.{Policy}
use project_guardian.Policy.Pack.{
  Manifest, SignedPack, PackError, Directory, load_signed, verify, critical_widening_rules,
}
use project_guardian.Policy.Pack.Seed.{generate_seed_hex, sign_with_seed_hex}
use project_guardian.Audit.Log.{AuditEntry, AuditError, Database, for_decision, append}

pub data Failure : Type 0 where
  pack : PackError → Failure
  file : Failure

-- A pack's directory and the file of the publisher's seed, with its text where it is there and can be
-- read. Neither that file nor the manifest's is a policy file of the directory, so writing them leaves
-- the listing and the policies as they are. What a failed write leaves behind is left out.
pub record Workshop : Type 0 where
  pub directory : Directory
  pub key_file : Option (Option Text)

-- What can be written, and random bytes.
pub record Tools : Type 0 where
  pub can_write_key : Bool
  pub can_write_manifest : Bool
  pub random : Option Text
  pub to_string_pretty : SignedPack → Text

unfoldable pub failing : {A : Type 0} → Result A PackError → Result A Failure
failing (ok a) = ok a
failing (err e) = err (pack e)

-- The action that stands for a verified pack.
unfoldable pub provenance_action : ℤ → SignedPack → Action
unfolding bytes
provenance_action now_ms signed = record {
  id = bytes "pack";
  kind = ActionKind.other;
  tool = bytes "policy-pack";
  args = object (
      member (bytes "name") (string signed.manifest.name) (
        member (bytes "version") (string signed.manifest.version)
          (member (bytes "publisher") (string signed.publisher) end)));
  capability = none;
  context = record {
    timestamp_ms = now_ms;
    source = bytes "pack-verify";
    session = none;
    host = none;
    principal = none;
    path = none;
    extra = end;
  };
}

unfoldable pub provenance_entry : ℤ → SignedPack → AuditEntry
unfolding provenance_action for_decision bytes
provenance_entry now_ms signed =
    for_decision (provenance_action now_ms signed) allow (some (bytes "pack-verified")) none none
      false

-- `record_pack_provenance`, on a log that was opened
unfoldable pub record_pack_provenance :
    (ed : Ed25519)
    → (Text → Text)
    → (AuditEntry → Text)
    → Bool
    → ℤ
    → SignedPack
    → Database
    → Result (ℕ × Database) AuditError
unfolding provenance_entry append
record_pack_provenance ed blake3 encode available now_ms signed log =
    append ed blake3 none available (encode (provenance_entry now_ms signed)) log

module _ (ed : Ed25519) (hex : Hex) (blake3_hex : Text → Text) (canonical : Manifest → Text)
    (decode : Text → Option SignedPack) (parse_toml : Text → Result Policy Text)
    (from_seed : Text → Ed25519.SigningKey ed) (tools : Tools) where
  -- A new seed is kept in the key's file.
  unfoldable pub kept_seed : Result Text PackError → Workshop → Result Text Failure × Workshop
  kept_seed (err e) w = (err (pack e), w)
  kept_seed (ok seed) w =
      if tools.can_write_key
      then (ok seed, record w { key_file = some (some seed) })
      else (err file, w)

  unfoldable pub seed_of : Workshop → Result Text Failure × Workshop
  unfolding kept_seed generate_seed_hex trim
  seed_of w = elim w.key_file [
    | none ↦ kept_seed (generate_seed_hex hex tools.random) w
    | some none ↦ (err file, w)
    | some (some seed) ↦ (ok (trim seed), w)
  ]

  unfoldable pub write_manifest :
      Result SignedPack Failure → Workshop → Result SignedPack Failure × Workshop
  write_manifest (err e) w = (err e, w)
  write_manifest (ok signed) w =
      if tools.can_write_manifest
      then (
        ok signed,
        record w {
          directory = record w.directory {
            has_manifest = true;
            manifest_text = some (tools.to_string_pretty signed);
          };
        },
      )
      else (err file, w)

  unfoldable pub signed_with :
      Text → Text → Result Text Failure → Directory → Result SignedPack Failure
  unfolding failing sign_with_seed_hex
  signed_with name version seed dir = do
    seed_hex ← seed
    failing (
        sign_with_seed_hex ed hex blake3_hex canonical decode parse_toml dir from_seed name version
          seed_hex)

  -- `PackAction::Sign`
  unfoldable pub run_sign : Text → Text → Workshop → Result SignedPack Failure × Workshop
  unfolding seed_of write_manifest signed_with
  run_sign name version w =
      let (seed, w') = seed_of w in write_manifest (signed_with name version seed w'.directory) w'

  -- `PackAction::Verify` before its record in the log, with the pack and the rules that widen a
  -- critical category
  unfoldable pub run_verify : Option Text → Directory → Result (SignedPack × List Text) Failure
  unfolding failing load_signed verify critical_widening_rules
  run_verify pubkey dir = do
    signed ← failing (load_signed ed hex blake3_hex canonical decode parse_toml dir)
    failing (verify ed hex blake3_hex canonical decode parse_toml dir signed pubkey)
    widening ← failing (critical_widening_rules ed hex blake3_hex canonical decode parse_toml dir)
    ok (signed, widening)
