-- ===== src/Broker/Credential.antt =====
-- crates/guardian-broker/src/credential.rs: claims signed by an issuer.
pub mod Verification
use project_guardian.Common.{
  Bool, true, false, Option, none, some, Text, length, ◌==◌, ℕ, ℤ, leb_ℤ, Map, eq_ignore_ascii_case,
  Result, ok, err, ◌>>=◌, ◌>>◌, if◌then◌else◌,
}
use project_guardian.Crypto.{Ed25519, Hex}

pub record Credential : Type 0 where
  pub subject : Text
  pub issuer : Text
  pub claims : Map Text
  pub not_after_ms : Option ℤ

pub record SignedCredential : Type 0 where
  pub credential : Credential
  pub signature : Text

pub data CredentialError : Type 0 where
  bad_encoding signature_invalid untrusted_issuer expired : CredentialError

-- The bytes that a text encodes, if they are as many.
decoded : Hex → ℕ → Text → Result Text CredentialError
decoded hex n s = elim (hex.decode s) [
  | none ↦ err bad_encoding
  | some b ↦ if length b == n then ok b else err bad_encoding
]

unfoldable pub trusts : Option Text → Text → Bool
unfolding eq_ignore_ascii_case
trusts none issuer = true
trusts (some trusted) issuer = eq_ignore_ascii_case issuer trusted

unfoldable pub is_past : Option ℤ → ℤ → Bool
is_past none now = false
is_past (some deadline) now = leb_ℤ deadline now

-- The canonical JSON bytes of a credential are a parameter.
module _ (ed : Ed25519) (hex : Hex) (canonical : Credential → Text) where
  open ed use {SigningKey, VerifyingKey, verifying_key, to_bytes, from_bytes, sign, check}

  key_of : Text → Result VerifyingKey CredentialError
  key_of b = elim (from_bytes b) [ none ↦ err bad_encoding | some key ↦ ok key ]

  unfoldable pub issue : Credential → SigningKey → SignedCredential
  issue credential key =
      let c : Credential = record credential {
        issuer = hex.encode (to_bytes (verifying_key key));
      } in
      record { credential = c; signature = hex.encode (sign key (canonical c)) }

  require : Bool → CredentialError → Result (Unit {0}) CredentialError
  require true e = ok tt
  require false e = err e

  unfoldable pub verify : SignedCredential → ℤ → Option Text → Result Credential CredentialError
  unfolding decoded key_of require
  verify signed now_ms trusted_issuer = do
    key_bytes ← decoded hex 32 signed.credential.issuer
    key ← key_of key_bytes
    sig ← decoded hex 64 signed.signature
    require (check key (canonical signed.credential) sig) signature_invalid
    require (trusts trusted_issuer signed.credential.issuer) untrusted_issuer
    (if is_past signed.credential.not_after_ms now_ms then err expired else ok signed.credential)
