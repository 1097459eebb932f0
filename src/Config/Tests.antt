-- ===== src/Config/Tests.antt =====
-- Runs of src/config/resolve.rs at concrete files, variables and flags.
use automated_flywheel_setup.Base.{
  String, ◌≡◌, refl, pieces, true, false, Option, none, some, [], ◌∷◌, ◌==ₛ◌, if◌then◌else◌, inl,
  inr,
}
use automated_flywheel_setup.Base.Int.{pos, negsuc}
use automated_flywheel_setup.Config.Toml.{
  Scalar, Value, scalar, Table, empty, entry, table, flatten,
}
use automated_flywheel_setup.Config.Scalars.{parse_scalar, env_name_for}
use automated_flywheel_setup.Config.Resolve.{
  Source, CliOverrides, Outside, Settings, resolve, entries, known_keys, env_entries, source_of,
}
use automated_flywheel_setup.Config.Resolve.Precedence.{
  get_path, last_of, strongest, given, resolve-strongest,
}

parse_number : parse_scalar (λ (_ : String). true) " -42 " ≡ Scalar.integer (negsuc 41)
unfolding parse_scalar
parse_number = refl

parse_float : parse_scalar (λ (_ : String). true) "1.5" ≡ Scalar.float "1.5"
unfolding parse_scalar
parse_float = refl

parse_boolean : parse_scalar (λ (_ : String). false) "True" ≡ Scalar.boolean true
unfolding parse_scalar
parse_boolean = refl

env_name : env_name_for "docker.timeout_seconds" ≡ "AFSC_DOCKER_TIMEOUT_SECONDS"
unfolding env_name_for
env_name = refl

abbrev text : String → Value
text s = scalar (Scalar.string s)

abbrev defaults : Table
defaults =
    entry "docker"
      (table (entry "image" (text "afsc-base:latest") (entry "network" (text "bridge") empty)))
      (entry "execution" (table (entry "parallel" (scalar (Scalar.integer (pos 1))) empty)) empty)

abbrev raw : Table
raw =
    entry "docker" (table (entry "image" (text "ubuntu:22.04") empty))
      (entry "execution" (table (entry "parallel" (scalar (Scalar.integer (pos 2))) empty)) empty)

abbrev outside : Outside Table
outside = record {
  read_to_string = λ (p : String). some p;
  from_str = λ (s : String). some raw;
  is_float = λ (s : String). false;
  try_into = λ (t : Table). some t;
}

abbrev variables : String → Option String
variables name = if name ==ₛ "AFSC_DOCKER_IMAGE" then some "ubuntu:24.04" else none

abbrev flags : CliOverrides
flags = record {
  parallel = some "4";
  timeout_seconds = none;
  fail_fast = none;
  image = none;
  data_dir = none;
  acfs_repo = none;
  remediation_mode = none;
  allow_file_urls = none;
  log_level = none;
}

abbrev merged : Table
merged =
    entry "docker"
      (table (entry "image" (text "ubuntu:24.04") (entry "network" (text "bridge") empty)))
      (entry "execution" (table (entry "parallel" (scalar (Scalar.integer (pos 4))) empty)) empty)

abbrev settings : Settings Table
settings = record {
  config = merged;
  sources =
      ("execution.parallel", Source.cli)
      ∷ ("docker.image", Source.env)
      ∷ ("execution.parallel", Source.file)
      ∷ ("docker.image", Source.file)
      ∷ [];
  unknown_keys = [];
  config_path = some "afsc.toml";
}

resolved : resolve outside defaults (some "afsc.toml") variables flags ≡ inr settings
unfolding resolve
resolved = refl

resolve-strongest_example :
    (root : Table) × (some root ≡ some merged)
    × ((get_path root "docker.image", source_of settings "docker.image")
        ≡ strongest (given outside defaults raw variables flags "docker.image"))
unfolding flatten env_entries entries known_keys pieces
resolve-strongest_example =
    resolve-strongest outside defaults raw (some "afsc.toml") variables flags settings
      "docker.image" refl resolved ((inl refl, (inr tt, tt)), (inl refl, tt), (inr tt, tt))

given_image :
    strongest (given outside defaults raw variables flags "docker.image")
    ≡ (some (text "ubuntu:24.04"), Source.env)
unfolding last_of flatten env_entries entries known_keys get_path
given_image = refl
