-- ===== src/Daemon/Config.antt =====
-- crates/guardian-daemon/src/config.rs: the configuration of the daemon, over Unix paths. Environment
-- variables and the file system are parameters; a variable that is not Unicode counts as unset.
use project_guardian.Common.{
  ◌&&◌, ◌||◌, ℕ, Bool, true, Option, none, some, or_else, unwrap_or, List, [], ◌∷◌, ◌++◌, Text,
  bytes, ltb, ◌==◌, if◌then◌else◌, Result, ok, err,
}
use mathlib.Core.List.{reverse}
use project_guardian.Gateway.Paths.{is_absolute}

pub record Config : Type 0 where
  pub socket : Option Text
  pub policy : Option Text
  pub audit : Option Text
  pub approval_timeout_secs : Option ℕ
  pub checker_endpoint : Option Text
  pub trusted_hosts : List Text
  pub protect : List Text
  pub notifications : Option Bool

-- `Config::default()`
unfoldable pub default_config : Config
default_config = record {
  socket = none;
  policy = none;
  audit = none;
  approval_timeout_secs = none;
  checker_endpoint = none;
  trusted_hosts = [];
  protect = [];
  notifications = none;
}

pub data ConfigError : Type 0 where
  io toml : Text → Text → ConfigError

-- What the file system shows, and whether it lets a file be written and directories be made.
pub record FileSystem : Type 0 where
  pub exists : Text → Bool
  pub read_to_string : Text → Result Text Text
  pub write : Text → Text → Bool
  pub create_dir_all : Text → Bool

-- What is tried on the file system; the mode of access rights is a number.
pub data Effect : Type 0 where
  create_dir_all : Text → Effect
  restrict : Text → ℕ → Effect
  write : Text → Text → Effect

unfoldable pub default_timeout_secs : ℕ
default_timeout_secs = 120

-- The texts, each with a line break.
lines : List Text → Text
lines [] = []
lines (line ∷ rest) = line ++ 10 ∷ lines rest

unfoldable pub default_config_template : Text
unfolding lines
default_config_template = lines (
    bytes "# Project Guardian — daemon config."
    ∷ bytes "# All fields are optional; the matching GUARDIAN_* env var overrides the file."
    ∷ bytes "# socket = \"/tmp/guardian.sock\""
    ∷ bytes "# policy = \"/absolute/path/to/policy.toml\"   # omitted -> built-in default pack"
    ∷ bytes "# audit  = \"~/.guardian/audit.db\""
    ∷ bytes "# approval_timeout_secs = 120"
    ∷ bytes
        "# checker_endpoint = \"http://localhost:11434/explain\"   # advisory only; omitted -> offline."
    ∷ bytes "#   The full action (incl. args) is POSTed there — use a trusted, local endpoint."
    ∷ bytes "# trusted_hosts = [\"api.example.com\"]"
    ∷ bytes
        "# protect = [\"Mario Rossi\", \"IT60X0542811101000000123456\"]   # values tokenized before the agent sees them (data vault)"
    ∷ bytes
        "# notifications = true   # desktop alert when an action needs approval (set false to disable)"
    ∷ [])

-- A path from its end, without the separators and the `.` components there; the root stays.
trim_end : Text → Text
trim_end [] = []
trim_end (c ∷ []) = c ∷ []
trim_end (c ∷ d ∷ s) =
    let rest = trim_end (d ∷ s) in if c == b'/' || (c == b'.' && d == b'/') then rest else c ∷ d ∷ s

-- A path from its end, without its last component.
without_component : Text → Text
without_component [] = []
without_component (c ∷ s) = let rest = without_component s in if c == b'/' then c ∷ s else rest

parent_from_end : Text → Option Text
unfolding trim_end without_component
parent_from_end [] = none
parent_from_end (c ∷ s) =
    if c == b'/' then none else some (reverse (trim_end (without_component (c ∷ s))))

-- `Path::parent`
unfoldable pub parent : Text → Option Text
unfolding trim_end parent_from_end
parent path = parent_from_end (trim_end (reverse path))

separated : Text → Text
separated [] = []
separated (c ∷ []) = if c == b'/' then c ∷ [] else c ∷ b'/' ∷ []
separated (c ∷ d ∷ s) = c ∷ separated (d ∷ s)

-- `Path::join`
unfoldable pub join_path : Text → Text → Text
unfolding separated is_absolute
join_path base path = if is_absolute path then path else separated base ++ path

non_empty : Option Text → Option Text
non_empty (some (c ∷ s)) = some (c ∷ s)
non_empty _ = none

module _ (var : Text → Option Text) where
  unfoldable pub env_path : Text → Option Text
  unfolding non_empty
  env_path name = non_empty (var name)

  unfoldable pub guardian_dir : Text
  unfolding join_path bytes
  guardian_dir = join_path (unwrap_or (var (bytes "HOME")) (bytes ".")) (bytes ".guardian")

  unfoldable pub config_path : Text
  unfolding guardian_dir join_path bytes
  config_path =
      unwrap_or (var (bytes "GUARDIAN_CONFIG")) (join_path guardian_dir (bytes "config.toml"))

  unfoldable pub kill_switch_path : Text
  unfolding config_path guardian_dir parent join_path bytes
  kill_switch_path = join_path (unwrap_or (parent config_path) guardian_dir) (bytes "STOP")

  unfoldable pub socket_path : Text → Config → Text
  unfolding env_path join_path bytes
  socket_path temp_dir c =
      unwrap_or (or_else (env_path (bytes "GUARDIAN_SOCK")) c.socket)
        (join_path temp_dir (bytes "guardian.sock"))

  unfoldable pub policy_path : Config → Option Text
  unfolding env_path bytes
  policy_path c = or_else (env_path (bytes "GUARDIAN_POLICY")) c.policy

  unfoldable pub audit_path : Config → Text
  unfolding env_path guardian_dir join_path bytes
  audit_path c =
      unwrap_or (or_else (env_path (bytes "GUARDIAN_AUDIT")) c.audit)
        (join_path guardian_dir (bytes "audit.db"))

  unfoldable pub checker_endpoint : Config → Option Text
  unfolding non_empty bytes
  checker_endpoint c = or_else (non_empty (var (bytes "GUARDIAN_CHECKER"))) c.checker_endpoint

  module _ (fs : FileSystem) (parse : Text → Result Config Text) where
    -- The text of a file, for the parser.
    parsed : Text → Result Text Text → Result Config ConfigError
    parsed path (err e) = err (io path e)
    parsed path (ok src) = elim (parse src) [ ok c ↦ ok c | err e ↦ err (toml path e) ]

    -- `Config::from_path`
    unfoldable pub from_path : Text → Result Config ConfigError
    unfolding parsed
    from_path path = parsed path (fs.read_to_string path)

    directory_effects : Option Text → List Effect
    directory_effects none = []
    directory_effects (some dir) = Effect.create_dir_all dir ∷ restrict dir 448 ∷ []

    -- What the first run does to the file system.
    first_run : Text → List Effect
    unfolding directory_effects parent default_config_template
    first_run path =
        directory_effects (parent path)
        ++ Effect.write path default_config_template
          ∷ (if fs.write path default_config_template then restrict path 384 ∷ [] else [])

    -- `Config::load`, with what is tried on the file system.
    unfoldable pub load : Result Config ConfigError × List Effect
    unfolding first_run from_path config_path
    load =
        if fs.exists config_path
        then (from_path config_path, [])
        else (ok default_config, first_run config_path)

-- In seconds; 0 counts as unset.
unfoldable pub approval_timeout : Config → ℕ
unfolding default_timeout_secs
approval_timeout c = elim c.approval_timeout_secs [
  | none ↦ default_timeout_secs
  | some n ↦ if ltb 0 n then n else default_timeout_secs
]

unfoldable pub notifications_enabled : Config → Bool
notifications_enabled c = elim c.notifications [ none ↦ true | some on ↦ on ]
