-- ===== src/Policy/Pack.antt =====
-- crates/guardian-policy/src/pack.rs: signed packs of policy files, and their loading. The directory does
-- not change while a pack is loaded; what it holds is a parameter. The texts of messages are left out.
pub mod Safety
pub mod Seed
pub mod RoundTrip
use project_guardian.Common.{
  ℕ, Bool, true, false, ◌&&◌, ◌||◌, Option, none, some, List, [], ◌∷◌, ◌++◌, Text, bytes, text_eq,
  trim, eq_ignore_ascii_case, member, all, length, ◌==◌, Result, ok, err, ◌>>=◌, ◌>>◌,
  if◌then◌else◌,
}
use project_guardian.Crypto.{Ed25519, Hex}
use project_guardian.Policy.Schema.{
  DecisionKind, Rule, Policy, PolicyError, is_allow_kind, from_toml_str,
}

pub record FileEntry : Type 0 where
  pub name : Text
  pub blake3 : Text

pub record Manifest : Type 0 where
  pub name : Text
  pub version : Text
  pub files : List FileEntry

pub record SignedPack : Type 0 where
  pub manifest : Manifest
  pub publisher : Text
  pub signature : Text

pub data PackError : Type 0 where
  io not_signed malformed bad_encoding signature_invalid untrusted_publisher : PackError
  file_altered : Text → PackError
  file_set_mismatch : PackError
  critical_widening : List Text → PackError
  policy : PolicyError → PackError

-- A pack's directory: the names of its policy files in order, the bytes and the text of a file, and
-- the text of the signed manifest, where there is one.
pub record Directory : Type 0 where
  pub listing : Option (List Text)
  pub read : Text → Option Text
  pub read_to_string : Text → Option Text
  pub has_manifest : Bool
  pub manifest_text : Option Text

unfoldable pub require : Bool → PackError → Result (Unit {0}) PackError
require true e = ok tt
require false e = err e

unfoldable pub found : {A : Type 0} → Option A → PackError → Result A PackError
found none e = err e
found (some a) e = ok a

unfoldable pub names : List FileEntry → List Text
names [] = []
names (e ∷ es) = e.name ∷ names es

-- Two lists of names as sets.
unfoldable pub same_set : List Text → List Text → Bool
unfolding member
same_set a b = all (λ n. member n b) a && all (λ n. member n a) b

unfoldable pub trusts : Option Text → Text → Bool
unfolding eq_ignore_ascii_case
trusts none publisher = true
trusts (some trusted) publisher = eq_ignore_ascii_case publisher trusted

is_empty : List Text → Bool
is_empty [] = true
is_empty (_ ∷ _) = false

-- A rule that grants a critical action.
unfoldable pub is_widening : Rule → Bool
unfolding is_allow_kind
is_widening r = r.critical && is_allow_kind r.decision

unfoldable pub widening_in : Text → List Rule → List Text
unfolding is_widening
widening_in role [] = []
widening_in role (r ∷ rules) =
    let rest = widening_in role rules in
    if is_widening r then (role ++ (bytes "::" ++ r.id)) ∷ rest else rest

-- The hash function, the JSON texts and the TOML parser are parameters.
module _ (ed : Ed25519) (hex : Hex) (blake3_hex : Text → Text) (canonical : Manifest → Text)
    (decode : Text → Option SignedPack) (parse_toml : Text → Result Policy Text)
    (dir : Directory) where
  open ed use {SigningKey, VerifyingKey, verifying_key, to_bytes, from_bytes, sign, check}

  unfoldable pub policy_files : Result (List Text) PackError
  unfolding found
  policy_files = found dir.listing io

  unfoldable pub hash_files : List Text → Result (List FileEntry) PackError
  unfolding found
  hash_files [] = ok []
  hash_files (n ∷ ns) = do
    b ← found (dir.read n) io
    rest ← hash_files ns
    ok (record { name = n; blake3 = blake3_hex b } ∷ rest)

  unfoldable pub build_manifest : Text → Text → Result Manifest PackError
  unfolding policy_files hash_files
  build_manifest name version = do
    on_disk ← policy_files
    files ← hash_files on_disk
    ok (record { name = name; version = version; files = files })

  -- `sign`
  unfoldable pub sign_pack : Text → Text → SigningKey → Result SignedPack PackError
  unfolding build_manifest
  sign_pack name version key = do
    manifest ← build_manifest name version
    ok (record {
      manifest = manifest;
      publisher = hex.encode (to_bytes (verifying_key key));
      signature = hex.encode (sign key (canonical manifest));
    })

  unfoldable pub load_signed : Result SignedPack PackError
  unfolding require found
  load_signed = do
    require dir.has_manifest not_signed
    text ← found dir.manifest_text io
    found (decode text) malformed

  unfoldable pub sized : ℕ → Text → Result Text PackError
  sized n b = if length b == n then ok b else err bad_encoding

  unfoldable pub parse_verifying_key : Text → Result VerifyingKey PackError
  unfolding found sized
  parse_verifying_key hex_key = do
    decoded ← found (hex.decode hex_key) bad_encoding
    key_bytes ← sized 32 decoded
    found (from_bytes key_bytes) bad_encoding

  unfoldable pub parse_signature : Text → Result Text PackError
  unfolding found sized
  parse_signature hex_sig = do decoded ← found (hex.decode hex_sig) bad_encoding; sized 64 decoded

  unfoldable pub check_files : List FileEntry → Result (Unit {0}) PackError
  unfolding found require text_eq
  check_files [] = ok tt
  check_files (e ∷ es) = do
    b ← found (dir.read e.name) io
    require (text_eq (blake3_hex b) e.blake3) (file_altered e.name)
    check_files es

  unfoldable pub verify : SignedPack → Option Text → Result (Unit {0}) PackError
  unfolding parse_verifying_key parse_signature require trusts policy_files check_files names
  verify signed trusted = do
    key ← parse_verifying_key signed.publisher
    sig ← parse_signature signed.signature
    require (check key (canonical signed.manifest) sig) signature_invalid
    require (trusts trusted signed.publisher) untrusted_publisher
    on_disk ← policy_files
    require (same_set on_disk (names signed.manifest.files)) file_set_mismatch
    check_files signed.manifest.files

  unfoldable pub parsed : Result Policy PolicyError → Result Policy PackError
  parsed (ok p) = ok p
  parsed (err e) = err (policy e)

  unfoldable pub parse_file : Text → Result Policy PackError
  unfolding found parsed from_toml_str
  parse_file name = do
    text ← found (dir.read_to_string name) io
    parsed (from_toml_str parse_toml text)

  unfoldable pub widening_of : List Text → Result (List Text) PackError
  unfolding widening_in parse_file
  widening_of [] = ok []
  widening_of (n ∷ ns) = do
    p ← parse_file n
    rest ← widening_of ns
    ok (widening_in p.role p.rules ++ rest)

  unfoldable pub critical_widening_rules : Result (List Text) PackError
  unfolding policy_files widening_of
  critical_widening_rules = do on_disk ← policy_files; widening_of on_disk

  load_files : List FileEntry → Result (List Policy) PackError
  unfolding parse_file
  load_files [] = ok []
  load_files (e ∷ es) = do p ← parse_file e.name; ps ← load_files es; ok (p ∷ ps)

  unfoldable pub load_pack : Option Text → Bool → Result (List Policy) PackError
  unfolding load_signed critical_widening_rules require is_empty load_files
  load_pack trusted allow_critical = do
    signed ← load_signed
    verify signed trusted
    widening ← critical_widening_rules
    require (is_empty widening || allow_critical) (critical_widening widening)
    load_files signed.manifest.files
