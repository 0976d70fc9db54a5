-- ===== src/Broker/Credential/Verification.antt =====
-- What a verified credential of crates/guardian-broker/src/credential.rs rests on.
use project_guardian.Common.{
  ℕ, >>=-eq-ok, Bool, true, false, Option, some, Text, ℤ, ok, err, ◌≡◌, arith, refl, if◌then◌else◌,
}
use project_guardian.Crypto.{Ed25519, Ed25519Laws, Hex, HexLaws}
use project_guardian.Broker.Credential.{
  decoded, key_of, require, Credential, SignedCredential, CredentialError, expired,
  untrusted_issuer, trusts, is_past, issue, verify,
}

module _ (ed : Ed25519) (hex : Hex) (canonical : Credential → Text) where
  open ed use {SigningKey, VerifyingKey, verifying_key, to_bytes, from_bytes, sign, check}

  -- A credential that an issuer signed verifies to itself, unless the reader trusts another issuer or
  -- its time is past, in that order.
  pub verify-issue :
      Ed25519Laws ed
      → HexLaws hex
      → (c : Credential) (key : SigningKey) (now : ℤ) (trusted : Option Text)
      → let s = issue ed hex canonical c key in
        verify ed hex canonical s now trusted ≡ (
          if trusts trusted s.credential.issuer
          then (if is_past c.not_after_ms now then err expired else ok s.credential)
          else err untrusted_issuer)
  unfolding issue verify
  verify-issue laws hex_laws c key now trusted =
      let k = verifying_key key in
      let s = issue ed hex canonical c key in
      let sig = sign key (canonical s.credential) in
      ground (
        arith,
        hex_laws.decode-encode (to_bytes k),
        laws.length-to_bytes k,
        laws.from_bytes-to_bytes k,
        hex_laws.decode-encode sig,
        laws.length-sign key (canonical s.credential),
        laws.check-sign key (canonical s.credential),
      )

  -- What a verified credential shows: it is the one that was read, its issuer's text decodes to a
  -- key under which its signature checks over its canonical bytes, that issuer is trusted, and its
  -- time is not past.
  pub record IsVouched (s : SignedCredential) (now : ℤ) (trusted : Option Text) : Type 0 where
    pub key_bytes : Text
    pub key : VerifyingKey
    pub sig : Text
    pub issuer : hex.decode s.credential.issuer ≡ some key_bytes
    pub key_of_bytes : from_bytes key_bytes ≡ some key
    pub signature : hex.decode s.signature ≡ some sig
    pub checked : check key (canonical s.credential) sig ≡ true
    pub trusted_issuer : trusts trusted s.credential.issuer ≡ true
    pub current : is_past s.credential.not_after_ms now ≡ false

  decoded-ok : (n : ℕ) (t b : Text) → decoded hex n t ≡ ok b → hex.decode t ≡ some b
  unfolding decoded
  decoded-ok n t b h = ground arith

  key_of-ok :
      (b : Text) (key : VerifyingKey) → key_of ed hex canonical b ≡ ok key → from_bytes b ≡ some key
  unfolding key_of
  key_of-ok b key h = ground arith

  require-ok :
      (b : Bool) (e : CredentialError) {u : Unit {0}}
      → require ed hex canonical b e ≡ ok u
      → b ≡ true
  unfolding require
  require-ok true e h = refl
  require-ok false e h = ground arith

  -- A credential that verifies is the one that was read, and it is vouched for.
  pub verify-IsVouched :
      (s : SignedCredential) (now : ℤ) (trusted : Option Text) (c : Credential)
      → verify ed hex canonical s now trusted ≡ ok c
      → (c ≡ s.credential) × IsVouched s now trusted
  unfolding verify
  verify-IsVouched s now trusted c h =
      let (key_bytes, e1, h1) = >>=-eq-ok (decoded hex 32 s.credential.issuer) _ h in
      let (key, e2, h2) = >>=-eq-ok (key_of ed hex canonical key_bytes) _ h1 in
      let (sig, e3, h3) = >>=-eq-ok (decoded hex 64 s.signature) _ h2 in
      let (_, e4, h4) = >>=-eq-ok (require ed hex canonical _ _) _ h3 in
      let (_, e5, h5) = >>=-eq-ok (require ed hex canonical _ _) _ h4 in
      (
        ground (arith, h5),
        record {
          key_bytes = key_bytes;
          key = key;
          sig = sig;
          issuer = decoded-ok 32 s.credential.issuer key_bytes e1;
          key_of_bytes = key_of-ok key_bytes key e2;
          signature = decoded-ok 64 s.signature sig e3;
          checked = require-ok _ _ e4;
          trusted_issuer = require-ok _ _ e5;
          current = ground (arith, h5);
        },
      )
