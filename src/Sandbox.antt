-- ===== src/Sandbox.antt =====
-- crates/guardian-sandbox/src/lib.rs: the command lines that run a command contained. Whether the platform
-- is the tool's and the tool is installed is a parameter; running it is left out.
use project_guardian.Common.{
  Bool, ◌&&◌, Option, none, some, List, [], ◌∷◌, ◌++◌, Text, bytes, ◌==◌, if◌then◌else◌,
}

pub record SandboxOpts : Type 0 where
  pub allow_network : Bool
  pub writable_paths : List Text

-- The runners, and `SandboxRunner::name`.
pub data Runner : Type 0 where
  seatbelt bubblewrap : Runner

unfoldable pub name : Runner → Text
unfolding bytes
name seatbelt = bytes "sandbox-exec"
name bubblewrap = bytes "bwrap"

-- `replace('"', "")`
without_quotes : Text → Text
without_quotes [] = []
without_quotes (c ∷ s) = let rest = without_quotes s in if c == b'"' then rest else c ∷ rest

path_rules : List Text → Text
unfolding without_quotes bytes
path_rules [] = []
path_rules (path ∷ paths) =
    bytes "(allow file-write* (subpath \""
    ++ (without_quotes path ++ (bytes "\"))\n" ++ path_rules paths))

-- `MacosSeatbelt::profile`
unfoldable pub profile : SandboxOpts → Text
unfolding path_rules bytes
profile opts =
    bytes "(version 1)\n(allow default)\n"
    ++ ((if opts.allow_network then [] else bytes "(deny network*)\n")
        ++ (bytes "(deny file-write*)\n"
            ++ (bytes
                  "(allow file-write* (subpath \"/tmp\") (subpath \"/private/tmp\") (subpath \"/private/var/folders\"))\n"
                ++ path_rules opts.writable_paths)))

binds : List Text → List Text
unfolding bytes
binds [] = []
binds (path ∷ paths) = bytes "--bind" ∷ path ∷ path ∷ binds paths

-- The options that `bwrap` is given.
unfoldable pub containment : SandboxOpts → List Text
unfolding binds bytes
containment opts =
    (bytes "--ro-bind"
      ∷ bytes "/"
      ∷ bytes "/"
      ∷ bytes "--dev"
      ∷ bytes "/dev"
      ∷ bytes "--proc"
      ∷ bytes "/proc"
      ∷ bytes "--tmpfs"
      ∷ bytes "/tmp"
      ∷ bytes "--die-with-parent"
      ∷ [])
    ++ ((if opts.allow_network then [] else bytes "--unshare-net" ∷ [])
        ++ binds opts.writable_paths)

-- `SandboxRunner::wrap`: the program and its arguments
unfoldable pub wrap : Runner → Text → List Text → SandboxOpts → List Text
unfolding profile containment bytes
wrap seatbelt program args opts = bytes "sandbox-exec" ∷ bytes "-p" ∷ profile opts ∷ program ∷ args
wrap bubblewrap program args opts =
    bytes "bwrap" ∷ (containment opts ++ (bytes "--" ∷ program ∷ args))

unfoldable pub detect : (Runner → Bool) → (Runner → Bool) → Option Runner
detect on_platform has_binary =
    if on_platform seatbelt && has_binary seatbelt
    then some seatbelt
    else if on_platform bubblewrap && has_binary bubblewrap
    then some bubblewrap
    else none
