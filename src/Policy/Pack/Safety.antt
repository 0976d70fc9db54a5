-- ===== src/Policy/Pack/Safety.antt =====
-- What a pack of crates/guardian-policy/src/pack.rs that loads can hold.
use project_guardian.Common.{
  ℕ, ap, ok-injective, false, ◌||◌, all, ◌∙◌, Bool-cases, inl, inr, sym, Bool, true, false, ◌||◌,
  Option, none, some, List, [], ◌∷◌, ◌++◌, Text, text_eq, text_eq_iff, member, all, All, Result, ok,
  >>=-eq-ok, ◌≡◌, refl, arith, subst,
}
use project_guardian.Crypto.{Ed25519, Hex}
use project_guardian.Policy.Schema.{DecisionKind, Rule, Policy, is_allow_kind}
use project_guardian.Policy.Pack.{
  sized, bad_encoding, is_empty, io, parse_verifying_key, parse_signature, FileEntry, Manifest,
  SignedPack, PackError, Directory, require, found, names, same_set, trusts, is_empty, is_widening,
  widening_in, policy_files, load_signed, check_files, verify, parse_file, widening_of,
  critical_widening_rules, load_files, load_pack,
}

-- No rule that is marked critical says `allow`.
abbrev pub IsHarmless : Policy → Type 0
IsHarmless p = All (λ r. ¬ ((r.critical ≡ true) × (r.decision ≡ DecisionKind.allow))) p.rules

widening_in-IsHarmless :
    (role : Text) (rules : List Rule)
    → widening_in role rules ≡ []
    → All (λ r. ¬ ((r.critical ≡ true) × (r.decision ≡ DecisionKind.allow))) rules
unfolding widening_in is_widening is_allow_kind
widening_in-IsHarmless role [] h = tt
widening_in-IsHarmless role (r ∷ rules) h = ground (arith, widening_in-IsHarmless role rules)

append-eq-nil : (a b : List Text) → a ++ b ≡ [] → (a ≡ []) × (b ≡ [])
append-eq-nil [] b h = (refl, h)
append-eq-nil (x ∷ a) b h = ground arith

member-All : (P : Text → Type 0) (n : Text) (a : List Text) → member n a ≡ true → All P a → P n
unfolding member
member-All P n [] h k = ground arith
member-All P n (m ∷ a) h k = elim (Bool-cases (text_eq n m)) [
  | inl e ↦ subst P (sym ((text_eq_iff n m).0 e)) k.0
  | inr e ↦ member-All P n a (ground arith) k.1
]

same_set-all : (a b : List Text) → same_set a b ≡ true → all (λ n. member n a) b ≡ true
unfolding same_set
same_set-all a b h = ground arith

is_empty-eq-nil : (w : List Text) → (is_empty w || false) ≡ true → w ≡ []
unfolding is_empty
is_empty-eq-nil [] h = refl
is_empty-eq-nil (x ∷ w) h = ground arith

all-member :
    (P : Text → Type 0) (a b : List Text) → all (λ n. member n a) b ≡ true → All P a → All P b
all-member P a [] h k = tt
all-member P a (n ∷ b) h k = (member-All P n a (ground arith) k, all-member P a b (ground arith) k)

module _ (ed : Ed25519) (hex : Hex) (blake3_hex : Text → Text) (canonical : Manifest → Text)
    (decode : Text → Option SignedPack) (parse_toml : Text → Result Policy Text)
    (dir : Directory) where
  -- The file, if it is a policy at all, is harmless.
  abbrev HoldsHarmless : Text → Type 0
  HoldsHarmless n =
      (p : Policy)
      → parse_file ed hex blake3_hex canonical decode parse_toml dir n ≡ ok p
      → IsHarmless p

  widening_of-nil :
      (ns w : List Text)
      → widening_of ed hex blake3_hex canonical decode parse_toml dir ns ≡ ok w
      → w ≡ []
      → All HoldsHarmless ns
  unfolding widening_of
  widening_of-nil [] w h e = tt
  widening_of-nil (n ∷ ns) w h e =
      let (p, hp, h1) =
        >>=-eq-ok (parse_file ed hex blake3_hex canonical decode parse_toml dir n) _ h in
      let (rest, hr, h2) =
        >>=-eq-ok (widening_of ed hex blake3_hex canonical decode parse_toml dir ns) _ h1 in
      let parts = append-eq-nil (widening_in p.role p.rules) rest (ground arith) in
      (
        λ q hq.
            subst IsHarmless (ok-injective (sym hp ∙ hq))
              (widening_in-IsHarmless p.role p.rules parts.0),
        widening_of-nil ns rest hr parts.1,
      )

  load_files-IsHarmless :
      (es : List FileEntry) (ps : List Policy)
      → load_files ed hex blake3_hex canonical decode parse_toml dir es ≡ ok ps
      → All HoldsHarmless (names es)
      → All IsHarmless ps
  unfolding load_files names
  load_files-IsHarmless [] ps h k = subst (All IsHarmless) (ok-injective h) tt
  load_files-IsHarmless (e ∷ es) ps h k =
      let (p, hp, h1) =
        >>=-eq-ok (parse_file ed hex blake3_hex canonical decode parse_toml dir e.name) _ h in
      let (rest, hr, h2) =
        >>=-eq-ok (load_files ed hex blake3_hex canonical decode parse_toml dir es) _ h1 in
      subst (All IsHarmless) (ok-injective h2) (k.0 p hp, load_files-IsHarmless es rest hr k.1)

  -- The file has the hash that was signed.
  abbrev pub IsUnaltered : FileEntry → Type 0
  IsUnaltered e = (b : Text) × (dir.read e.name ≡ some b) × (blake3_hex b ≡ e.blake3)

  found-ok : {A : Type 0} (o : Option A) (e : PackError) {a : A} → found o e ≡ ok a → o ≡ some a
  unfolding found
  found-ok none e h = ground arith
  found-ok (some x) e h = ground arith

  require-ok : (b : Bool) (e : PackError) {u : Unit {0}} → require b e ≡ ok u → b ≡ true
  unfolding require
  require-ok true e h = refl
  require-ok false e h = ground arith

  check_files-IsUnaltered :
      (es : List FileEntry) {u : Unit {0}}
      → check_files ed hex blake3_hex canonical decode parse_toml dir es ≡ ok u
      → All IsUnaltered es
  unfolding check_files
  check_files-IsUnaltered [] h = tt
  check_files-IsUnaltered (e ∷ es) h =
      let (b, hb, h1) = >>=-eq-ok (found (dir.read e.name) io) _ h in
      let (_, hr, h2) = >>=-eq-ok (require _ _) _ h1 in
      (
        (
          b,
          found-ok (dir.read e.name) io hb,
          (text_eq_iff (blake3_hex b) e.blake3).0 (require-ok _ _ hr),
        ),
        check_files-IsUnaltered es h2,
      )

  -- The publisher's text decodes to a key under which the decoded signature checks over the manifest, that
  -- publisher is the trusted one if there is one, and the files on disk are those of the manifest,
  -- unaltered.
  pub record IsVouched (signed : SignedPack) (trusted : Option Text) : Type 0 where
    pub key_bytes : Text
    pub key : Ed25519.VerifyingKey ed
    pub sig : Text
    pub on_disk : List Text
    pub publisher_bytes : hex.decode signed.publisher ≡ some key_bytes
    pub key_of_bytes : Ed25519.from_bytes ed key_bytes ≡ some key
    pub signature : hex.decode signed.signature ≡ some sig
    pub checked : Ed25519.check ed key (canonical signed.manifest) sig ≡ true
    pub publisher : trusts trusted signed.publisher ≡ true
    pub listed : policy_files ed hex blake3_hex canonical decode parse_toml dir ≡ ok on_disk
    pub same : same_set on_disk (names signed.manifest.files) ≡ true
    pub unaltered : All IsUnaltered signed.manifest.files

  sized-ok :
      (n : ℕ) (b : Text) {b' : Text}
      → sized ed hex blake3_hex canonical decode parse_toml dir n b ≡ ok b'
      → b ≡ b'
  unfolding sized
  sized-ok n b h = ground (arith, h)

  parse_verifying_key-ok :
      (t : Text) (key : Ed25519.VerifyingKey ed)
      → parse_verifying_key ed hex blake3_hex canonical decode parse_toml dir t ≡ ok key
      → (b : Text) × (hex.decode t ≡ some b) × (Ed25519.from_bytes ed b ≡ some key)
  unfolding parse_verifying_key
  parse_verifying_key-ok t key h =
      let (b, e1, h1) = >>=-eq-ok (found (hex.decode t) bad_encoding) _ h in
      let (b', e2, h2) =
        >>=-eq-ok (sized ed hex blake3_hex canonical decode parse_toml dir 32 b) _ h1 in
      (
        b',
        found-ok (hex.decode t) bad_encoding e1 ∙ ap some (sized-ok 32 b e2),
        found-ok (Ed25519.from_bytes ed b') bad_encoding h2,
      )

  parse_signature-ok :
      (t sig : Text)
      → parse_signature ed hex blake3_hex canonical decode parse_toml dir t ≡ ok sig
      → hex.decode t ≡ some sig
  unfolding parse_signature
  parse_signature-ok t sig h =
      let (b, e1, h1) = >>=-eq-ok (found (hex.decode t) bad_encoding) _ h in
      found-ok (hex.decode t) bad_encoding e1 ∙ ap some (sized-ok 64 b h1)

  verify-IsVouched :
      (signed : SignedPack) (trusted : Option Text) {u : Unit {0}}
      → verify ed hex blake3_hex canonical decode parse_toml dir signed trusted ≡ ok u
      → IsVouched signed trusted
  unfolding verify
  verify-IsVouched signed trusted h =
      let (key, e1, h1) =
        >>=-eq-ok
          (parse_verifying_key ed hex blake3_hex canonical decode parse_toml dir signed.publisher) _
          h in
      let (sig, e2, h2) =
        >>=-eq-ok
          (parse_signature ed hex blake3_hex canonical decode parse_toml dir signed.signature) _
          h1 in
      let (_, e3, h3) = >>=-eq-ok (require _ _) _ h2 in
      let (_, e4, h4) = >>=-eq-ok (require _ _) _ h3 in
      let (on_disk, e5, h5) =
        >>=-eq-ok (policy_files ed hex blake3_hex canonical decode parse_toml dir) _ h4 in
      let (_, e6, h6) = >>=-eq-ok (require _ _) _ h5 in
      let (key_bytes, publisher_bytes, key_of_bytes) =
        parse_verifying_key-ok signed.publisher key e1 in
      record {
        key_bytes = key_bytes;
        key = key;
        sig = sig;
        on_disk = on_disk;
        publisher_bytes = publisher_bytes;
        key_of_bytes = key_of_bytes;
        signature = parse_signature-ok signed.signature sig e2;
        checked = require-ok _ _ e3;
        publisher = require-ok _ _ e4;
        listed = e5;
        same = require-ok _ _ e6;
        unaltered = check_files-IsUnaltered signed.manifest.files h6;
      }

  -- A pack that loads has a manifest over which its signature checks under the key that its publisher's
  -- text decodes to, a publisher who is the trusted one if there is one, and exactly the files of the
  -- manifest, unaltered; without the opt-in no rule of the loaded
  -- policies that is marked critical says `allow`.
  pub load_pack-IsHarmless :
      (trusted : Option Text) (policies : List Policy)
      → load_pack ed hex blake3_hex canonical decode parse_toml dir trusted false ≡ ok policies
      → ((signed : SignedPack) × (load_signed ed hex blake3_hex canonical decode parse_toml dir
            ≡ ok signed)
          × IsVouched signed trusted)
        × All IsHarmless policies
  unfolding load_pack critical_widening_rules
  load_pack-IsHarmless trusted policies h =
      let (signed, e1, h1) =
        >>=-eq-ok (load_signed ed hex blake3_hex canonical decode parse_toml dir) _ h in
      let (_, e2, h2) =
        >>=-eq-ok (verify ed hex blake3_hex canonical decode parse_toml dir signed trusted) _ h1 in
      let (widening, e3, h3) =
        >>=-eq-ok (critical_widening_rules ed hex blake3_hex canonical decode parse_toml dir) _
          h2 in
      let (on_disk, e4, h4) =
        >>=-eq-ok (policy_files ed hex blake3_hex canonical decode parse_toml dir) _ e3 in
      let (_, e5, h5) = >>=-eq-ok (require _ _) _ h3 in
      let v = verify-IsVouched signed trusted e2 in
      (
        (signed, e1, v),
        load_files-IsHarmless signed.manifest.files policies h5 (
            all-member HoldsHarmless on_disk (names signed.manifest.files)
              (same_set-all on_disk (names signed.manifest.files) (
                subst (λ d. same_set d (names signed.manifest.files) ≡ true)
                  (ok-injective (sym v.listed ∙ e4)) v.same))
              (widening_of-nil on_disk widening h4 (is_empty-eq-nil widening (require-ok _ _ e5)))),
      )
