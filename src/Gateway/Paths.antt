-- ===== src/Gateway/Paths.antt =====
-- crates/guardian-mcp-gateway/src/lib.rs: self-protection, the kill switch, and the lexical
-- normalization of paths that the protection compares, over Unix paths as the standard library
-- takes them apart.
pub mod Resolution
use project_guardian.Common.{
  Bool, true, false, ◌&&◌, ◌||◌, Option, none, some, List, [], ◌∷◌, ◌++◌, Text, bytes, text_eq,
  ◌==◌, any, if◌then◌else◌,
}
use mathlib.Core.List.{reverse}
use project_guardian.Core.{ActionKind, file_write, delete, Action}

pub data Component : Type 0 where
  root : Component
  normal : Text → Component

-- The parts between slashes.
split_from : Text → Text → List Text
split_from cur [] = reverse cur ∷ []
split_from cur (c ∷ s) =
    let closed = reverse cur ∷ split_from [] s in
    let longer = split_from (c ∷ cur) s in if c == b'/' then closed else longer

unfoldable pub is_absolute : Text → Bool
is_absolute [] = false
is_absolute (c ∷ _) = c == b'/'

-- `base.join(path)` of a relative path: an empty base adds no slash.
unfoldable pub join : Text → Text → Text
join [] path = path
join (c ∷ base) path = c ∷ base ++ (b'/' ∷ path)

absolutized : Text → Text → Text
unfolding is_absolute join
absolutized current_dir path = if is_absolute path then path else join current_dir path

is_empty : Text → Bool
is_empty [] = true
is_empty (_ ∷ _) = false

-- `pop`: nothing is above the root.
unfoldable pub pop : List Component → List Component
pop (normal _ ∷ out) = out
pop out = out

-- One component; `out` has its last component at the head.
unfoldable pub push_part : List Component → Text → List Component
unfolding pop is_empty text_eq
push_part out part =
    if is_empty part || text_eq part (b'.' ∷ [])
    then out
    else if text_eq part (b'.' ∷ b'.' ∷ [])
    then pop out
    else normal part ∷ out

unfoldable pub resolve : List Component → List Text → List Component
unfolding push_part
resolve out [] = out
resolve out (part ∷ parts) = resolve (push_part out part) parts

-- `normalize_abs`; the current directory is a parameter.
unfoldable pub normalize_abs : Text → Text → List Component
unfolding resolve split_from absolutized
normalize_abs current_dir path =
    let abs = absolutized current_dir path in
    reverse (resolve (if is_absolute abs then root ∷ [] else []) (split_from [] abs))

component_eq : Component → Component → Bool
unfolding text_eq
component_eq root root = true
component_eq (normal s) (normal t) = text_eq s t
component_eq _ _ = false

-- `path.starts_with(base)`, by components
unfoldable pub path_starts_with : List Component → List Component → Bool
unfolding component_eq
path_starts_with path [] = true
path_starts_with [] (b ∷ base) = false
path_starts_with (a ∷ path) (b ∷ base) = component_eq a b && path_starts_with path base

pub record SelfProtection : Type 0 where
  pub protected_prefixes : List Text
  pub kill_switch : Option Text

unfoldable pub modifies : ActionKind → Bool
modifies file_write = true
modifies delete = true
modifies _ = false

unfoldable pub kill_reason : Text
kill_reason = bytes "Guardian kill switch is engaged — all actions are blocked."

unfoldable pub protect_reason : Text → Text
protect_reason path =
    bytes "Guardian self-protection: refusing to modify its own file (" ++ path ++ bytes ")."

-- The existence of files and the current directory are parameters.
module _ (exists : Text → Bool) (current_dir : Text) where
  engaged : Option Text → Bool
  engaged none = false
  engaged (some path) = exists path

  unfoldable pub is_protected : List Text → Text → Bool
  is_protected prefixes path =
      any (λ p. path_starts_with (normalize_abs current_dir path) (normalize_abs current_dir p))
        prefixes

  targets_own_file : SelfProtection → Option Text → Option Text
  targets_own_file sp none = none
  targets_own_file sp (some path) =
      if is_protected sp.protected_prefixes path then some (protect_reason path) else none

  -- `SelfProtection::override_deny`
  unfoldable pub override_deny : SelfProtection → Action → Option Text
  unfolding engaged modifies targets_own_file
  override_deny sp action =
      if engaged sp.kill_switch
      then some kill_reason
      else if modifies action.kind
      then targets_own_file sp action.context.path
      else none
