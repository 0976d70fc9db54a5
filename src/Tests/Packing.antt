-- ===== src/Tests/Packing.antt =====
-- A concrete signed pack of crates/guardian-policy, and its signing by crates/guardian-cli.
use project_guardian.Common.{
  false, Option, none, some, [], ◌∷◌, true, Text, bytes, Result, ok, ◌≡◌, refl, All,
}
use project_guardian.Policy.Schema.{validate_structure, Policy}
use project_guardian.Policy.Pack.{
  verify, same_set, Manifest, SignedPack, Directory, load_signed, load_pack, trusts,
  critical_widening_rules,
}
use project_guardian.Policy.Pack.Safety.{IsHarmless, IsVouched, load_pack-IsHarmless}
use project_guardian.Cli.Publish.{Workshop, Tools, run_sign, run_verify}
use project_guardian.Cli.Publish.RoundTrip.{run_sign-run_verify}
use project_guardian.Tests.Samples.{
  sum, sample_ed_laws, sample_hex_laws, sample_ed, sample_hex, padding, sample_policy, allow_rule,
}

abbrev sample_manifest : Manifest
sample_manifest = record {
  name = bytes "m";
  version = [];
  files = record { name = 1 ∷ []; blake3 = 5 ∷ [] } ∷ [];
}

-- The publisher is the key 4, and the canonical bytes are one byte.
abbrev sample_pack : SignedPack
sample_pack = record {
  manifest = sample_manifest;
  publisher = 4 ∷ padding 31;
  signature = 6 ∷ padding 63;
}

abbrev sample_directory : Directory
sample_directory = record {
  listing = some ((1 ∷ []) ∷ []);
  read = λ n. some (5 ∷ []);
  read_to_string = λ n. some (5 ∷ []);
  has_manifest = true;
  manifest_text = some [];
}

same_bytes : Text → Text
same_bytes s = s

short_bytes : Manifest → Text
short_bytes m = 2 ∷ []

decode_sample : Text → Option SignedPack
decode_sample s = some sample_pack

parse_allowing : Text → Result Policy Text
parse_allowing s = ok (sample_policy (allow_rule ∷ []))

load_pack-IsHarmless_example :
    ((signed : SignedPack) × (load_signed sample_ed sample_hex same_bytes short_bytes decode_sample
          parse_allowing sample_directory
        ≡ ok signed)
      × IsVouched sample_ed sample_hex same_bytes short_bytes decode_sample parse_allowing
          sample_directory signed none)
    × All IsHarmless (sample_policy (allow_rule ∷ []) ∷ [])
unfolding load_pack same_bytes short_bytes decode_sample parse_allowing verify same_set
    validate_structure
load_pack-IsHarmless_example =
    load_pack-IsHarmless sample_ed sample_hex same_bytes short_bytes decode_sample parse_allowing
      sample_directory none (sample_policy (allow_rule ∷ []) ∷ []) refl

-- The publisher has no seed yet, and the new one gives the key 4.
abbrev sample_workshop : Workshop
sample_workshop = record {
  directory = record {
    listing = some ((1 ∷ []) ∷ []);
    read = λ n. some (5 ∷ []);
    read_to_string = λ n. some (5 ∷ []);
    has_manifest = false;
    manifest_text = none;
  };
  key_file = none;
}

abbrev sample_tools : Tools
sample_tools = record {
  can_write_key = true;
  can_write_manifest = true;
  random = some (4 ∷ padding 31);
  to_string_pretty = λ signed. [];
}

run_sign-run_verify_example :
    run_verify sample_ed sample_hex same_bytes short_bytes decode_sample parse_allowing sum
      sample_tools none
      (run_sign sample_ed sample_hex same_bytes short_bytes decode_sample parse_allowing sum
        sample_tools
        (bytes "m")
        []
        sample_workshop).1.directory
    ≡ ok (sample_pack, [])
unfolding same_bytes short_bytes decode_sample parse_allowing run_sign trusts
    critical_widening_rules validate_structure
run_sign-run_verify_example =
    run_sign-run_verify sample_ed sample_hex same_bytes short_bytes decode_sample parse_allowing sum
      sample_tools sample_ed_laws sample_hex_laws (bytes "m") [] sample_workshop sample_pack none []
      refl refl refl refl
