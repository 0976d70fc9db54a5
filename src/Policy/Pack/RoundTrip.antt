-- ===== src/Policy/Pack/RoundTrip.antt =====
-- A pack that crates/guardian-policy/src/pack.rs signed verifies.
use project_guardian.Common.{
  sym, >>=-eq-ok_iff, ok-injective, true, Option, List, [], ◌∷◌, Text, text_eq_refl, member, all,
  Result, ok, ◌>>=◌, >>=-eq-ok, ◌≡◌, refl, ap, subst, arith,
}
use project_guardian.Crypto.{Ed25519, Ed25519Laws, Hex, HexLaws}
use project_guardian.Policy.Schema.{Policy}
use project_guardian.Policy.Pack.{
  FileEntry, Manifest, SignedPack, io, Directory, require, found, sized, names, same_set, trusts,
  policy_files, hash_files, build_manifest, sign_pack, parse_verifying_key, parse_signature,
  check_files, verify,
}

all-member :
    (xs ys : List Text)
    → ((n : Text) → member n xs ≡ true → member n ys ≡ true)
    → all (λ n. member n ys) xs ≡ true
unfolding member
all-member [] ys h = refl
all-member (x ∷ xs) ys h = ground (
  arith,
  h x (ground (arith, text_eq_refl x)),
  all-member xs ys (λ n found. h n (ground (arith, found))),
)

same_set_refl : (xs : List Text) → same_set xs xs ≡ true
unfolding same_set
same_set_refl xs = ground (arith, all-member xs xs (λ n h. h))

module _ (ed : Ed25519) (hex : Hex) (blake3_hex : Text → Text) (canonical : Manifest → Text)
    (decode : Text → Option SignedPack) (parse_toml : Text → Result Policy Text)
    (dir : Directory) where
  -- The hashes of files on disk are the ones that are checked.
  hash_files_lem :
      (ns : List Text) (files : List FileEntry)
      → hash_files ed hex blake3_hex canonical decode parse_toml dir ns ≡ ok files
      → (names files ≡ ns)
        × (check_files ed hex blake3_hex canonical decode parse_toml dir files ≡ ok tt)
  unfolding hash_files check_files found require names
  hash_files_lem [] files h =
      subst
        (λ fs.
          (names fs ≡ [])
          × (check_files ed hex blake3_hex canonical decode parse_toml dir fs ≡ ok tt))
        (ok-injective h) (refl, refl)
  hash_files_lem (n ∷ ns) files h =
      let (b, read, h1) = >>=-eq-ok (found (dir.read n) io) _ h in
      let (rest, hashed, h2) =
        >>=-eq-ok (hash_files ed hex blake3_hex canonical decode parse_toml dir ns) _ h1 in
      let (same, checked) = hash_files_lem ns rest hashed in
      subst
        (λ fs.
          (names fs ≡ n ∷ ns)
          × (check_files ed hex blake3_hex canonical decode parse_toml dir fs ≡ ok tt))
        (ok-injective h2) (ap (λ ms. n ∷ ms) same, rw (read, text_eq_refl (blake3_hex b)) checked)

  module _ (laws : Ed25519Laws ed) (hex_laws : HexLaws hex) where
    parse_verifying_key-encode :
        (k : Ed25519.VerifyingKey ed)
        → parse_verifying_key ed hex blake3_hex canonical decode parse_toml dir
            (hex.encode (Ed25519.to_bytes ed k))
          ≡ ok k
    unfolding parse_verifying_key found sized
    parse_verifying_key-encode k =
        rw
          (
            hex_laws.decode-encode (Ed25519.to_bytes ed k),
            ◌>>=◌,
            laws.length-to_bytes k,
            ◌>>=◌,
            laws.from_bytes-to_bytes k,
          )
          refl

    parse_signature-encode :
        (k : Ed25519.SigningKey ed) (m : Text)
        → parse_signature ed hex blake3_hex canonical decode parse_toml dir
            (hex.encode (Ed25519.sign ed k m))
          ≡ ok (Ed25519.sign ed k m)
    unfolding parse_signature found sized
    parse_signature-encode k m =
        rw (hex_laws.decode-encode (Ed25519.sign ed k m), ◌>>=◌, laws.length-sign k m) refl

  verify_lem :
      (signed : SignedPack) (trusted : Option Text) (key : Ed25519.VerifyingKey ed) (sig : Text)
      (on_disk : List Text)
      → parse_verifying_key ed hex blake3_hex canonical decode parse_toml dir signed.publisher
        ≡ ok key
      → parse_signature ed hex blake3_hex canonical decode parse_toml dir signed.signature ≡ ok sig
      → Ed25519.check ed key (canonical signed.manifest) sig ≡ true
      → trusts trusted signed.publisher ≡ true
      → policy_files ed hex blake3_hex canonical decode parse_toml dir ≡ ok on_disk
      → same_set on_disk (names signed.manifest.files) ≡ true
      → check_files ed hex blake3_hex canonical decode parse_toml dir signed.manifest.files ≡ ok tt
      → verify ed hex blake3_hex canonical decode parse_toml dir signed trusted ≡ ok tt
  unfolding verify require
  verify_lem signed trusted key sig on_disk e1 e2 e3 e4 e5 e6 e7 = (>>=-eq-ok_iff _ _ tt).1 (
    key,
    e1,
    (>>=-eq-ok_iff _ _ tt).1
        (sig, e2, rw (e3, e4) ((>>=-eq-ok_iff _ _ tt).1 (on_disk, e5, rw e6 e7))),
  )

  -- A pack that was just signed with a key verifies as long as its files stay as they are, for everybody
  -- who trusts anyone or that key's public part.
  pub sign_pack-verify :
      (name version : Text) (key : Ed25519.SigningKey ed) (signed : SignedPack)
      (trusted : Option Text)
      → Ed25519Laws ed
      → HexLaws hex
      → sign_pack ed hex blake3_hex canonical decode parse_toml dir name version key ≡ ok signed
      → trusts trusted signed.publisher ≡ true
      → verify ed hex blake3_hex canonical decode parse_toml dir signed trusted ≡ ok tt
  unfolding sign_pack build_manifest
  sign_pack-verify name version key signed trusted laws hex_laws h trusting =
      let (manifest, built, h1) =
        >>=-eq-ok (build_manifest ed hex blake3_hex canonical decode parse_toml dir name version) _
          h in
      let (on_disk, listed, b1) =
        >>=-eq-ok (policy_files ed hex blake3_hex canonical decode parse_toml dir) _ built in
      let (files, hashed, b2) =
        >>=-eq-ok (hash_files ed hex blake3_hex canonical decode parse_toml dir on_disk) _ b1 in
      let (same, checked) = hash_files_lem on_disk files hashed in
      let same_files : files ≡ manifest.files = ap (λ (m : Manifest). m.files) (ok-injective b2) in
      subst (λ s. verify ed hex blake3_hex canonical decode parse_toml dir s trusted ≡ ok tt)
        (ok-injective h1)
        (verify_lem _ trusted (Ed25519.verifying_key ed key)
          (Ed25519.sign ed key (canonical manifest)) on_disk
          (parse_verifying_key-encode laws hex_laws (Ed25519.verifying_key ed key))
          (parse_signature-encode laws hex_laws key (canonical manifest))
          (laws.check-sign key (canonical manifest))
          (subst (λ (p : SignedPack). trusts trusted p.publisher ≡ true) (sym (ok-injective h1))
            trusting)
          listed
          (subst (λ fs. same_set on_disk (names fs) ≡ true) same_files
            (rw same (same_set_refl on_disk)))
          (subst (λ fs. check_files ed hex blake3_hex canonical decode parse_toml dir fs ≡ ok tt)
            same_files checked))
