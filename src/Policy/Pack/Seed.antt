-- ===== src/Policy/Pack/Seed.antt =====
-- crates/guardian-policy/src/pack.rs: the publisher's secret seed. The random bytes, and the key that a seed
-- gives, are parameters.
use project_guardian.Common.{Option, Text, trim, Result, ok, ◌>>=◌}
use project_guardian.Crypto.{Ed25519, Hex}
use project_guardian.Policy.Schema.{Policy}
use project_guardian.Policy.Pack.{
  Manifest, SignedPack, PackError, io, bad_encoding, Directory, found, sized, sign_pack,
}

-- `generate_seed_hex`
unfoldable pub generate_seed_hex : Hex → Option Text → Result Text PackError
unfolding found
generate_seed_hex hex random = do seed ← found random io; ok (hex.encode seed)

module _ (ed : Ed25519) (hex : Hex) (blake3_hex : Text → Text) (canonical : Manifest → Text)
    (decode : Text → Option SignedPack) (parse_toml : Text → Result Policy Text) (dir : Directory)
    (from_seed : Text → Ed25519.SigningKey ed) where
  unfoldable pub sign_with_seed_hex : Text → Text → Text → Result SignedPack PackError
  unfolding found sized sign_pack trim
  sign_with_seed_hex name version seed_hex = do
    decoded ← found (hex.decode (trim seed_hex)) bad_encoding
    seed ← sized ed hex blake3_hex canonical decode parse_toml dir 32 decoded
    sign_pack ed hex blake3_hex canonical decode parse_toml dir name version (from_seed seed)
