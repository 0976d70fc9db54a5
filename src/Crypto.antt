-- ===== src/Crypto.antt =====
-- The cryptography that the crates call (ed25519 signatures and hexadecimal text), behind interfaces.
use project_guardian.Common.{some, length, Bool, true, Option, Text, ◌≡◌}

-- `ed25519_dalek`: a signature made with a key checks against the key's public part.
pub record Ed25519 : Type 1 where
  pub SigningKey : Type 0
  pub VerifyingKey : Type 0
  pub verifying_key : SigningKey → VerifyingKey
  pub to_bytes : VerifyingKey → Text
  pub from_bytes : Text → Option VerifyingKey
  pub sign : SigningKey → Text → Text
  pub check : VerifyingKey → Text → Text → Bool

-- What the crates rely on; a signature has 64 bytes.
pub record Ed25519Laws (ed : Ed25519) : Type 0 where
  pub check-sign :
      (k : Ed25519.SigningKey ed) (m : Text)
      → Ed25519.check ed (Ed25519.verifying_key ed k) m (Ed25519.sign ed k m) ≡ true
  pub length-sign : (k : Ed25519.SigningKey ed) (m : Text) → length (Ed25519.sign ed k m) ≡ 64
  pub length-to_bytes : (k : Ed25519.VerifyingKey ed) → length (Ed25519.to_bytes ed k) ≡ 32
  pub from_bytes-to_bytes :
      (k : Ed25519.VerifyingKey ed) → Ed25519.from_bytes ed (Ed25519.to_bytes ed k) ≡ some k

-- The crate `hex`.
pub record Hex : Type 0 where
  pub encode : Text → Text
  pub decode : Text → Option Text

pub record HexLaws (hex : Hex) : Type 0 where
  pub decode-encode : (s : Text) → hex.decode (hex.encode s) ≡ some s
