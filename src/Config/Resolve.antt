-- ===== src/Config/Resolve.antt =====
-- src/config/resolve.rs: `resolve` and what it calls. The default configuration as a table, the reading of
-- the file, the TOML parser, `parse::<f64>()` and the typed reading of the merged table are arguments.
pub mod Precedence
use automated_flywheel_setup.Base.{
  ℕ, String, Bool, true, false, ◌||◌, Option, none, some, List, [], ◌∷◌, ◌++◌, ◌==ₛ◌, concat,
  as_bytes, has_text, strip_prefix, pieces, get_elem?, unwrap_or, ltb, map, ◌^◌, ◌-◌, if◌then◌else◌,
  ◌⊎◌, inl, inr,
}
use automated_flywheel_setup.Base.Int.{ℤ, as_i64}
use automated_flywheel_setup.Reporting.Diff.{bytes_ltb}
use automated_flywheel_setup.Config.Toml.{Scalar, Value, scalar, Table, table, set_parts, flatten}
use automated_flywheel_setup.Config.Scalars.{parse_scalar, env_name_for}

pub data Source : Type 0 where
  default : Source
  file : Source
  env : Source
  cli : Source

pub record CliOverrides : Type 0 where
  pub parallel : Option String
  pub timeout_seconds : Option ℕ
  pub fail_fast : Option Bool
  pub image : Option String
  pub data_dir : Option String
  pub acfs_repo : Option String
  pub remediation_mode : Option String
  pub allow_file_urls : Option Bool
  pub log_level : Option String

-- The values of a dotted key, in the order in which they are set.
abbrev pub Assignments : Type 0
Assignments = List (String × Value)

-- `if let Some(a) = flag { v.push(..) }`
abbrev pub flag : {A : Type 0} → (A → Scalar) → String → Option A → Assignments → Assignments
flag read key none rest = rest
flag read key (some a) rest = (key, scalar (read a)) ∷ rest

-- `CliOverrides::entries`
unfoldable pub entries : (String → Bool) → CliOverrides → Assignments
unfolding parse_scalar
entries is_float c = flag (parse_scalar is_float) "execution.parallel" c.parallel (
    flag (λ (t : ℕ). Scalar.integer (as_i64 t)) "docker.timeout_seconds" c.timeout_seconds
      (flag Scalar.boolean "execution.fail_fast" c.fail_fast (
        flag Scalar.string "docker.image" c.image (
          flag Scalar.string "general.data_dir" c.data_dir (
            flag Scalar.string "general.acfs_repo" c.acfs_repo (
              flag Scalar.string "remediation.mode" c.remediation_mode (
                flag Scalar.boolean "general.allow_file_urls" c.allow_file_urls
                  (flag Scalar.string "general.log_level" c.log_level []))))))))

-- `set_path`
unfoldable pub set_path : Table → String → Value → Table
unfolding pieces set_parts
set_path root key value = set_parts (pieces 46 key) value root

-- `known_keys`, of the default configuration
unfoldable pub known_keys : Table → List String
unfolding flatten
known_keys defaults = map (λ (a : String × Value). a.0) (flatten "" (table defaults))

-- `INSTALLER_OVERRIDE_KEYS`
abbrev pub installer_override_keys : List String
installer_override_keys =
    "timeout_seconds" ∷ "retry" ∷ "interpreter" ∷ "args" ∷ "env" ∷ "skip" ∷ "skip_reason"
    ∷ "expect_binary" ∷ "verify_cmd" ∷ "version_cmd" ∷ "run_as_root" ∷ "memory_limit" ∷ "network"
    ∷ []

-- The field behind `installers.<name>.`, the second of the pieces.
abbrev pub is_override : Option String → Bool
is_override none = false
is_override (some rest) =
    has_text installer_override_keys (unwrap_or (get_elem? (pieces 46 rest) 1) "")

unfoldable pub is_known : Table → String → Bool
unfolding known_keys strip_prefix pieces
is_known defaults key =
    has_text (known_keys defaults) key || is_override (strip_prefix key "installers.")

abbrev text_ltb : String → String → Bool
text_ltb a b = bytes_ltb (as_bytes a) (as_bytes b)

unfoldable pub insert_key : String → List String → List String
unfolding bytes_ltb as_bytes
insert_key k [] = k ∷ []
insert_key k (x ∷ xs) =
    let later = insert_key k xs in if text_ltb x k then x ∷ later else k ∷ x ∷ xs

-- The keys that are not known, sorted.
unfoldable pub unknown_among : Table → Assignments → List String
unfolding is_known insert_key
unknown_among defaults [] = []
unknown_among defaults ((key, value) ∷ rest) =
    let later = unknown_among defaults rest in
    if is_known defaults key then later else insert_key key later

-- `unknown_keys`
unfoldable pub unknown_keys : Table → Table → List String
unfolding unknown_among flatten
unknown_keys defaults raw = unknown_among defaults (flatten "" (table raw))

-- `merged` and `sources`
pub record Merged : Type 0 where
  pub root : Table
  pub sources : List (String × Source)

-- `sources.insert`, in front of the older entries
unfoldable pub assign : Source → Merged → String × Value → Merged
unfolding set_path
assign source m (key, value) = record {
  root = set_path m.root key value;
  sources = (key, source) ∷ m.sources;
}

unfoldable pub assign_all : Source → Assignments → Merged → Merged
unfolding assign
assign_all source [] m = m
assign_all source (a ∷ rest) m = assign_all source rest (assign source m a)

-- `sources.get`
unfoldable pub find_source : String → List (String × Source) → Option Source
find_source key [] = none
find_source key ((k, source) ∷ rest) =
    let later = find_source key rest in if k ==ₛ key then some source else later

-- The environment by name
abbrev pub from_env : (String → Bool) → String → Option String → Assignments → Assignments
from_env is_float key none rest = rest
from_env is_float key (some raw) rest = (key, scalar (parse_scalar is_float raw)) ∷ rest

-- The variables of known keys
unfoldable pub env_entries : (String → Bool) → (String → Option String) → List String → Assignments
unfolding env_name_for parse_scalar
env_entries is_float variables [] = []
env_entries is_float variables (key ∷ keys) =
    from_env is_float key (variables (env_name_for key)) (env_entries is_float variables keys)

-- What is outside: the file system, the parser of the file and of floats, the typed reading.
pub record Outside {ℓ} (C : Type ℓ) : Type ℓ where
  pub read_to_string : String → Option String
  pub from_str : String → Option Table
  pub is_float : String → Bool
  pub try_into : Table → Option C

pub record Settings {ℓ} (C : Type ℓ) : Type ℓ where
  pub config : C
  pub sources : List (String × Source)
  pub unknown_keys : List String
  pub config_path : Option String

abbrev pub parsed : String → Option Table → String ⊎ Table
parsed p none = inl (concat ("Failed to parse config file: " ∷ p ∷ []))
parsed p (some t) = inr t

abbrev pub path_error : Option String → String
path_error none = "Failed to resolve configuration"
path_error (some p) = concat ("Failed to parse config file: " ∷ p ∷ [])

module _ {ℓ} {C : Type ℓ} where
  -- `Settings::source_of`
  unfoldable pub source_of : Settings C → String → Source
  unfolding find_source
  source_of s key = unwrap_or (find_source key s.sources) Source.default

  abbrev pub parse_content : Outside C → String → Option String → String ⊎ Table
  parse_content o p none = inl (concat ("Failed to read config file: " ∷ p ∷ []))
  parse_content o p (some content) = parsed p (o.from_str content)

  -- `load_raw`
  abbrev pub load_raw : Outside C → Option String → String ⊎ Table
  load_raw o none = inr Table.empty
  load_raw o (some p) = parse_content o p (o.read_to_string p)

  -- The tables and the sources in the order of `resolve`: defaults, file, environment, flags.
  unfoldable pub merge :
      Outside C → Table → Table → (String → Option String) → CliOverrides → Merged
  unfolding assign_all env_entries entries known_keys flatten
  merge o defaults raw variables c = assign_all Source.cli (entries o.is_float c) (
      assign_all Source.env (env_entries o.is_float variables (known_keys defaults)) (
        assign_all Source.file (flatten "" (table raw)) (record { root = defaults; sources = [] })))

  abbrev pub settled : Option String → List String → Merged → Option C → String ⊎ Settings C
  settled path unknown m none = inl (path_error path)
  settled path unknown m (some c) =
      inr (record { config = c; sources = m.sources; unknown_keys = unknown; config_path = path })

  abbrev pub from_raw :
      Outside C
      → Table
      → Option String
      → (String → Option String)
      → CliOverrides
      → String ⊎ Table
      → String ⊎ Settings C
  from_raw o defaults path variables c (inl error) = inl error
  from_raw o defaults path variables c (inr raw) =
      let m = merge o defaults raw variables c in
      settled path (unknown_keys defaults raw) m (o.try_into m.root)

  -- `resolve`
  unfoldable pub resolve :
      Outside C
      → Table
      → Option String
      → (String → Option String)
      → CliOverrides
      → String ⊎ Settings C
  unfolding merge unknown_keys
  resolve o defaults path variables c = from_raw o defaults path variables c (load_raw o path)
