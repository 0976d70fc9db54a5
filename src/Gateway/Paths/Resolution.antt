-- ===== src/Gateway/Paths/Resolution.antt =====
-- The self-protection of crates/guardian-mcp-gateway/src/lib.rs: what it denies, and that no detour in a
-- path evades it.
use project_guardian.Common.{
  any, ◌↔◌, ◌≢◌, none, ◌⊎◌, Option, Bool-cases, ◌==◌, some, Exists, true, ap, sym, text_eq,
  text_eq_iff, inl, inr, Bool, Bool, true, some, List, [], ◌∷◌, ◌++◌, Text, ◌==◌, All, Exists, ◌≡◌,
  ◌≢◌, inl, inr, refl, ap, sym, ◌∙◌, arith, if◌then◌else◌, text_eq_iff, Bool-cases,
}
use mathlib.Core.List.{append-nil, append_assoc, reverse-cons, reverse, reverse-cons, append_assoc}
use project_guardian.Core.{Action}
use project_guardian.Gateway.Paths.{
  override_deny, engaged, targets_own_file, is_protected, normalize_abs, absolutized, join,
  SelfProtection, modifies, path_starts_with, is_empty, root, pop, normal, push_part, is_absolute,
  resolve, Component, root, normal, split_from, is_absolute, join, absolutized, pop, push_part,
  resolve, normalize_abs, SelfProtection, modifies, path_starts_with,
}

-- A part of a path that names something.
abbrev pub IsName : Text → Type 0
IsName part =
    (part ≢ []) × (part ≢ b'.' ∷ []) × (part ≢ b'.' ∷ b'.' ∷ []) × All (λ c. c ≢ b'/') part

split_from-slash :
    (cur s t : Text) → split_from cur (s ++ b'/' ∷ t) ≡ split_from cur s ++ split_from [] t
unfolding split_from
split_from-slash cur [] t = refl
split_from-slash cur (c ∷ s) t =
    ground (arith, split_from-slash [] s t, split_from-slash (c ∷ cur) s t)

split_from-name :
    (cur part : Text) → All (λ c. c ≢ b'/') part → split_from cur part ≡ (reverse cur ++ part) ∷ []
unfolding split_from
split_from-name cur [] h = ap (λ (s : Text). s ∷ []) (sym (append-nil (reverse cur)))
split_from-name cur (c ∷ part) h = ground (
  arith,
  split_from-name (c ∷ cur) part,
  ap (λ (s : Text). s ++ part) (reverse-cons c cur),
  append_assoc (reverse cur) (c ∷ []) part,
)

resolve-append :
    (out : List Component) (xs ys : List Text)
    → resolve out (xs ++ ys) ≡ resolve (resolve out xs) ys
unfolding resolve
resolve-append out [] ys = refl
resolve-append out (x ∷ xs) ys = resolve-append (push_part out x) xs ys

push_part-name :
    (out : List Component) (part : Text) → IsName part → push_part out part ≡ normal part ∷ out
unfolding push_part is_empty
push_part-name out [] h = absurd (h.0 refl)
push_part-name out (c ∷ part) h =
    ground (arith, text_eq_iff (c ∷ part) (b'.' ∷ []), text_eq_iff (c ∷ part) (b'.' ∷ b'.' ∷ []))

push_part-up :
    (out : List Component) (part : Text) → push_part (normal part ∷ out) (b'.' ∷ b'.' ∷ []) ≡ out
unfolding push_part is_empty text_eq pop
push_part-up out part = refl

push_part-same : (out : List Component) → push_part out (b'.' ∷ []) ≡ out
unfolding push_part is_empty text_eq
push_part-same out = refl

-- The parts of a path that goes on behind a slash.
resolve-slash :
    (out : List Component) (s t : Text)
    → resolve out (split_from [] (s ++ b'/' ∷ t))
      ≡ resolve (resolve out (split_from [] s)) (split_from [] t)
resolve-slash out s t =
    ap (resolve out) (split_from-slash [] s t)
    ∙ resolve-append out (split_from [] s) (split_from [] t)

resolve-detour :
    (out : List Component) (part rest : Text)
    → IsName part
    → resolve out (split_from [] (part ++ b'/' ∷ b'.' ∷ b'.' ∷ b'/' ∷ rest))
      ≡ resolve out (split_from [] rest)
unfolding resolve split_from
resolve-detour out part rest h =
    resolve-slash out part (b'.' ∷ b'.' ∷ b'/' ∷ rest)
    ∙ ap (λ parts. resolve (resolve out parts) (split_from [] (b'.' ∷ b'.' ∷ b'/' ∷ rest)))
        (split_from-name [] part h.3)
    ∙ ap (λ out. resolve out (split_from [] (b'.' ∷ b'.' ∷ b'/' ∷ rest)))
        (push_part-name out part h)
    ∙ ap (λ out. resolve out (split_from [] rest)) (push_part-up out part)

-- The components of a path that is absolute already.
abbrev components : Text → List Component
components abs = reverse (resolve (if is_absolute abs then root ∷ [] else []) (split_from [] abs))

is_absolute-slash : (pre s t : Text) → is_absolute (pre ++ b'/' ∷ s) ≡ is_absolute (pre ++ b'/' ∷ t)
unfolding is_absolute
is_absolute-slash [] s t = refl
is_absolute-slash (c ∷ pre) s t = refl

components-detour :
    (pre part rest : Text)
    → IsName part
    → components (pre ++ b'/' ∷ (part ++ b'/' ∷ b'.' ∷ b'.' ∷ b'/' ∷ rest))
      ≡ components (pre ++ b'/' ∷ rest)
components-detour pre part rest h =
    let long = part ++ b'/' ∷ b'.' ∷ b'.' ∷ b'/' ∷ rest in
    let out : Bool → List Component = λ b. if b then root ∷ [] else [] in
    ap (λ b. reverse (resolve (out b) (split_from [] (pre ++ b'/' ∷ long))))
      (is_absolute-slash pre long rest)
    ∙ ap reverse (
        resolve-slash (out (is_absolute (pre ++ b'/' ∷ rest))) pre long
        ∙ resolve-detour (resolve (out (is_absolute (pre ++ b'/' ∷ rest))) (split_from [] pre)) part
            rest h
        ∙ sym (resolve-slash (out (is_absolute (pre ++ b'/' ∷ rest))) pre rest))

-- What stands before the slash in the absolute path.
absolutized-slash :
    (current_dir dir : Text)
    → (pre : Text) × ((s : Text) → absolutized current_dir (dir ++ b'/' ∷ s) ≡ pre ++ b'/' ∷ s)
unfolding absolutized is_absolute join
absolutized-slash current_dir [] = ([], λ s. refl)
absolutized-slash [] (c ∷ dir) = (c ∷ dir, λ s. ground arith)
absolutized-slash (k ∷ current_dir) (c ∷ dir) = elim (Bool-cases (c == b'/')) [
  | inl h ↦ (c ∷ dir, λ s. rw h)
  | inr h ↦ (
    (k ∷ current_dir) ++ b'/' ∷ c ∷ dir,
    λ s. rw h (sym (append_assoc (k ∷ current_dir) (b'/' ∷ c ∷ dir) (b'/' ∷ s))),
  )
]

-- A path that enters a directory and leaves it at once by `..` is normalized as the path without the
-- detour, whatever stands before and behind, relative or absolute.
pub normalize_abs-detour :
    (current_dir dir part rest : Text)
    → IsName part
    → normalize_abs current_dir (dir ++ b'/' ∷ (part ++ b'/' ∷ b'.' ∷ b'.' ∷ b'/' ∷ rest))
      ≡ normalize_abs current_dir (dir ++ b'/' ∷ rest)
unfolding normalize_abs
normalize_abs-detour current_dir dir part rest h =
    let (pre, same) = absolutized-slash current_dir dir in
    ap components (same (part ++ b'/' ∷ b'.' ∷ b'.' ∷ b'/' ∷ rest))
    ∙ components-detour pre part rest h
    ∙ sym (ap components (same rest))

-- The path is under a protected one, both normalized.
abbrev pub IsUnder : Text → List Text → Option Text → Type 0
IsUnder current_dir prefixes none = ⊥
IsUnder current_dir prefixes (some path) =
    Exists
      (λ p. path_starts_with (normalize_abs current_dir path) (normalize_abs current_dir p) ≡ true)
      prefixes

-- The kill switch is set and its file exists.
abbrev pub IsEngaged : (Text → Bool) → Option Text → Type 0
IsEngaged exists none = ⊥
IsEngaged exists (some path) = exists path ≡ true

any_iff {ℓ} :
    {A : Type ℓ} (p : A → Bool) (xs : List A) → (any p xs ≡ true) ↔ Exists (λ x. p x ≡ true) xs
any_iff p [] = ground arith
any_iff p (x ∷ xs) = ground (arith, any_iff p xs)

module _ (exists : Text → Bool) (current_dir : Text) where
  engaged_iff : (o : Option Text) → (engaged exists current_dir o ≡ true) ↔ IsEngaged exists o
  unfolding engaged
  engaged_iff none = ground arith
  engaged_iff (some path) = ground arith

  targets_own_file_iff :
      (sp : SelfProtection) (o : Option Text)
      → (targets_own_file exists current_dir sp o ≢ none)
        ↔ IsUnder current_dir sp.protected_prefixes o
  unfolding targets_own_file is_protected
  targets_own_file_iff sp none = ground arith
  targets_own_file_iff sp (some path) = ground (
    arith,
    any_iff (λ p. path_starts_with (normalize_abs current_dir path) (normalize_abs current_dir p))
        sp.protected_prefixes,
  )

  -- An action is denied before any policy exactly when the kill switch is engaged, or it writes or
  -- deletes a file whose normalized path starts with a normalized protected path.
  pub override_deny-ne-none_iff :
      (sp : SelfProtection) (action : Action)
      → (override_deny exists current_dir sp action ≢ none) ↔ (
          IsEngaged exists sp.kill_switch
          ⊎ (modifies action.kind ≡ true)
            × IsUnder current_dir sp.protected_prefixes action.context.path)
  unfolding override_deny
  override_deny-ne-none_iff sp action =
      ground (arith, engaged_iff sp.kill_switch, targets_own_file_iff sp action.context.path)
