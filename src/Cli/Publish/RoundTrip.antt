-- ===== src/Cli/Publish/RoundTrip.antt =====
-- What `guardian pack sign` of crates/guardian-cli/src/main.rs wrote, `guardian pack verify` accepts.
use mathlib.Core.Path.{fun_ext}
use project_guardian.Common.{
  Bool-cases, Option-cases, none, inl, inr, trim, ℤ, true, Option, some, List, [], ◌∷◌, Text,
  Result, ok, err, ◌>>=◌, >>=-eq-ok, ok-injective, ◌≡◌, refl, ap, ◌∙◌, arith,
}
use project_guardian.Crypto.{Ed25519, Ed25519Laws, Hex, HexLaws}
use project_guardian.Policy.Schema.{Policy}
use project_guardian.Policy.Pack.{
  widening_of, parse_file, hash_files, build_manifest, policy_files, io, bad_encoding, Manifest,
  SignedPack, PackError, Directory, load_signed, found, require, trusts, sign_pack,
  critical_widening_rules, sized,
}
use project_guardian.Policy.Pack.Seed.{sign_with_seed_hex, generate_seed_hex}
use project_guardian.Policy.Pack.RoundTrip.{sign_pack-verify}
use project_guardian.Cli.Publish.{
  kept_seed, seed_of, seed_of, signed_with, run_verify, Failure, Workshop, Tools, failing,
  write_manifest, signed_with, run_sign, run_verify, provenance_entry,
}

-- The entry that stands for a verified pack is the same for every pack.
provenance_entry-forgets :
    (now_ms : ℤ) (a b : SignedPack) → provenance_entry now_ms a ≡ provenance_entry now_ms b
unfolding provenance_entry
provenance_entry-forgets now_ms a b = refl

module _ (ed : Ed25519) (hex : Hex) (blake3_hex : Text → Text) (canonical : Manifest → Text)
    (decode : Text → Option SignedPack) (parse_toml : Text → Result Policy Text)
    (from_seed : Text → Ed25519.SigningKey ed) (tools : Tools) where
  abbrev signs : Text → Text → Workshop → Result SignedPack Failure × Workshop
  signs = run_sign ed hex blake3_hex canonical decode parse_toml from_seed tools

  abbrev verifies : Option Text → Directory → Result (SignedPack × List Text) Failure
  verifies = run_verify ed hex blake3_hex canonical decode parse_toml from_seed tools

  -- The pack with the rules of the directory that widen a critical category.
  abbrev pub with_widening : SignedPack → Directory → Result (SignedPack × List Text) Failure
  with_widening signed dir = do
    widening ← failing (critical_widening_rules ed hex blake3_hex canonical decode parse_toml dir)
    ok (signed, widening)

  -- The directory with a manifest.
  abbrev with_manifest : SignedPack → Directory → Directory
  with_manifest signed dir = record dir {
    has_manifest = true;
    manifest_text = some (tools.to_string_pretty signed);
  }

  failing-eq-ok : {A : Type 0} (r : Result A PackError) {a : A} → failing r ≡ ok a → r ≡ ok a
  unfolding failing
  failing-eq-ok (ok _) h = ap ok (ok-injective h)
  failing-eq-ok (err e) h = cc

  write_manifest-eq-ok :
      (r : Result SignedPack Failure) (w : Workshop) (signed : SignedPack)
      → (write_manifest ed hex blake3_hex canonical decode parse_toml from_seed tools r w).0
        ≡ ok signed
      → (r ≡ ok signed)
        × ((write_manifest ed hex blake3_hex canonical decode parse_toml from_seed tools r
              w).1.directory
            ≡ with_manifest signed w.directory)
  unfolding write_manifest
  write_manifest-eq-ok (err e) w signed h = ground (arith, h)
  write_manifest-eq-ok (ok t) w signed h = elim (Bool-cases tools.can_write_manifest) [
    | inl written ↦ ground (arith, written, h)
    | inr failed ↦ ground (arith, failed, h)
  ]

  hash_files-with_manifest :
      (signed : SignedPack) (dir : Directory) (ns : List Text)
      → hash_files ed hex blake3_hex canonical decode parse_toml (with_manifest signed dir) ns
        ≡ hash_files ed hex blake3_hex canonical decode parse_toml dir ns
  unfolding hash_files
  hash_files-with_manifest signed dir [] = refl
  hash_files-with_manifest signed dir (n ∷ ns) = rw (hash_files-with_manifest signed dir ns) refl

  -- The manifest is no part of what is signed.
  sign_pack-with_manifest :
      (signed : SignedPack) (dir : Directory) (name version : Text) (key : Ed25519.SigningKey ed)
      → sign_pack ed hex blake3_hex canonical decode parse_toml
          (with_manifest signed dir)
          name
          version
          key
        ≡ sign_pack ed hex blake3_hex canonical decode parse_toml dir name version key
  unfolding sign_pack build_manifest policy_files
  sign_pack-with_manifest signed dir name version key =
      ap
        (λ hashed. (do
          manifest ← (do
            on_disk ← found dir.listing io
            files ← hashed on_disk
            ok (record { name = name; version = version; files = files }))
          ok (record {
            manifest = manifest;
            publisher = hex.encode (Ed25519.to_bytes ed (Ed25519.verifying_key ed key));
            signature = hex.encode (Ed25519.sign ed key (canonical manifest));
          })))
        (fun_ext (hash_files-with_manifest signed dir))

  load_signed-with_manifest :
      (signed : SignedPack) (dir : Directory)
      → decode (tools.to_string_pretty signed) ≡ some signed
      → load_signed ed hex blake3_hex canonical decode parse_toml (with_manifest signed dir)
        ≡ ok signed
  unfolding load_signed require found
  load_signed-with_manifest signed dir h = rw h refl

  widening_of-with_manifest :
      (signed : SignedPack) (dir : Directory) (ns : List Text)
      → widening_of ed hex blake3_hex canonical decode parse_toml (with_manifest signed dir) ns
        ≡ widening_of ed hex blake3_hex canonical decode parse_toml dir ns
  unfolding widening_of parse_file
  widening_of-with_manifest signed dir [] = refl
  widening_of-with_manifest signed dir (n ∷ ns) = rw (widening_of-with_manifest signed dir ns) refl

  kept_seed-directory :
      (r : Result Text PackError) (w : Workshop)
      → (kept_seed ed hex blake3_hex canonical decode parse_toml from_seed tools r w).1.directory
        ≡ w.directory
  unfolding kept_seed
  kept_seed-directory (err e) w = refl
  kept_seed-directory (ok seed) w = elim (Bool-cases tools.can_write_key) [
    | inl on ↦ rw on refl
    | inr off ↦ rw off refl
  ]

  critical_widening_rules-with_manifest :
      (signed : SignedPack) (dir : Directory)
      → critical_widening_rules ed hex blake3_hex canonical decode parse_toml
          (with_manifest signed dir)
        ≡ critical_widening_rules ed hex blake3_hex canonical decode parse_toml dir
  unfolding critical_widening_rules policy_files
  critical_widening_rules-with_manifest signed dir =
      ap (λ widening. found dir.listing io >>= widening)
        (fun_ext (widening_of-with_manifest signed dir))

  seed_of-directory :
      (w : Workshop)
      → (seed_of ed hex blake3_hex canonical decode parse_toml from_seed tools w).1.directory
        ≡ w.directory
  unfolding seed_of kept_seed
  seed_of-directory w = elim (Option-cases w.key_file) [
    | inl absent ↦
        rw absent
          (kept_seed-directory (generate_seed_hex hex tools.random) (record w { key_file = none }))
    | inr (none, unread) ↦ rw unread refl
    | inr (some seed, there) ↦ rw there refl
  ]

  -- The key with which a pack was signed.
  signed_with-eq-ok :
      (name version : Text) (seed : Result Text Failure) (dir : Directory) (signed : SignedPack)
      → signed_with ed hex blake3_hex canonical decode parse_toml from_seed tools name version seed
          dir
        ≡ ok signed
      → (key : Ed25519.SigningKey ed) × (sign_pack ed hex blake3_hex canonical decode parse_toml dir
            name version key
          ≡ ok signed)
  unfolding signed_with sign_with_seed_hex
  signed_with-eq-ok name version seed dir signed h =
      let (seed_hex, _, h1) = >>=-eq-ok seed _ h in
      let (decoded, _, h2) =
        >>=-eq-ok (found (hex.decode (trim seed_hex)) bad_encoding) _ (failing-eq-ok _ h1) in
      let (bytes, _, h3) =
        >>=-eq-ok (sized ed hex blake3_hex canonical decode parse_toml dir 32 decoded) _ h2 in
      (from_seed bytes, h3)

  module _ (laws : Ed25519Laws ed) (hex_laws : HexLaws hex) where
    -- A manifest that was written for a signed directory verifies.
    with_manifest-run_verify :
        (name version : Text) (key : Ed25519.SigningKey ed) (dir : Directory) (signed : SignedPack)
        (pubkey : Option Text)
        → sign_pack ed hex blake3_hex canonical decode parse_toml dir name version key ≡ ok signed
        → decode (tools.to_string_pretty signed) ≡ some signed
        → trusts pubkey signed.publisher ≡ true
        → verifies pubkey (with_manifest signed dir)
          ≡ with_widening signed (with_manifest signed dir)
    unfolding run_verify failing
    with_manifest-run_verify name version key dir signed pubkey h read trusting =
        rw
          (
            load_signed-with_manifest signed dir read,
            ◌>>=◌,
            sign_pack-verify ed hex blake3_hex canonical decode parse_toml
                (with_manifest signed dir) name version key signed pubkey laws hex_laws
                (sign_pack-with_manifest signed dir name version key ∙ h) trusting,
          )
          refl

    -- Where the JSON text of a pack is read back, its publisher is the trusted one, if there is one, and the
    -- policy files of the directory are read and parsed: a pack that the signing command wrote, the
    -- verifying command accepts in the directory that the signing left, and it names the rules there that
    -- widen a critical category.
    pub run_sign-run_verify :
        (name version : Text) (w : Workshop) (signed : SignedPack) (pubkey : Option Text)
        (widening : List Text)
        → (signs name version w).0 ≡ ok signed
        → decode (tools.to_string_pretty signed) ≡ some signed
        → trusts pubkey signed.publisher ≡ true
        → critical_widening_rules ed hex blake3_hex canonical decode parse_toml w.directory
          ≡ ok widening
        → verifies pubkey (signs name version w).1.directory ≡ ok (signed, widening)
    unfolding run_sign
    run_sign-run_verify name version w signed pubkey widening h read trusting parsing =
        let (seed, kept) =
          seed_of ed hex blake3_hex canonical decode parse_toml from_seed tools w in
        let (signing, here) =
          write_manifest-eq-ok
            (signed_with ed hex blake3_hex canonical decode parse_toml from_seed tools name version
              seed kept.directory)
            kept signed h in
        let (key, made) = signed_with-eq-ok name version seed kept.directory signed signing in
        let left : critical_widening_rules ed hex blake3_hex canonical decode parse_toml
              kept.directory
            ≡ ok widening =
          rw (seed_of-directory w) parsing in
        rw here (
          with_manifest-run_verify name version key kept.directory signed pubkey made read trusting
          ∙ rw (critical_widening_rules-with_manifest signed kept.directory, left) refl)
