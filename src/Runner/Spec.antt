-- ===== src/Runner/Spec.antt =====
-- src/runner/spec.rs: the specification of one installer, and the test that is made of it. The environment,
-- a `BTreeMap`, is the list of its pairs by their keys; the sources of the fields, which are for display, are
-- left out.
pub mod Precedence
mod Tests
use automated_flywheel_setup.Base.{
  ℕ, ◌+◌, ◌-◌, ◌*◌, ◌%◌, ◌^◌, String, Bool, true, false, ◌||◌, Option, none, some, List, [], ◌∷◌,
  ◌++◌, max, min, is_empty, trim, ends_with, as_bytes, parse_usize, strip_suffix_char, map_option,
  unwrap_or, ltb, ◌==ₛ◌, if◌then◌else◌,
}
use automated_flywheel_setup.Reporting.Diff.{bytes_ltb}
use automated_flywheel_setup.Runner.Installer.{
  InstallerTest, new_test, with_timeout, with_retry_count, with_sha256,
}
use automated_flywheel_setup.Runner.Profile.{
  Interpreter, interpreter_str, parse_interpreter, Profile, profile,
}

-- `InstallerEntry`, as far as it is read.
pub record InstallerEntry : Type 0 where
  pub url : Option String
  pub sha256 : Option String

pub record InstallerOverride : Type 0 where
  pub timeout_seconds : Option ℕ
  pub retry : Option ℕ
  pub interpreter : Option String
  pub args : Option (List String)
  pub env : List (String × String)
  pub skip : Option Bool
  pub skip_reason : Option String
  pub expect_binary : Option String
  pub verify_cmd : Option String
  pub version_cmd : Option String
  pub run_as_root : Option Bool
  pub memory_limit : Option String
  pub network : Option String

-- `GlobalDefaults`
pub record GlobalDefaults : Type 0 where
  pub timeout_seconds : ℕ
  pub retries : ℕ

pub record InstallerSpec : Type 0 where
  pub name : String
  pub url : String
  pub sha256 : Option String
  pub interpreter : String
  pub args : List String
  pub env : List (String × String)
  pub timeout_seconds : ℕ
  pub retries : ℕ
  pub skip_reason : Option String
  pub expect_binary : Option String
  pub verify_cmd : Option String
  pub version_cmd : Option String
  pub run_as_root : Option Bool
  pub memory_limit : Option String
  pub network : Option String

-- `ovr.and_then(field)`
abbrev pub overriding :
    {A : Type 0} → (InstallerOverride → Option A) → Option InstallerOverride → Option A
overriding field none = none
overriding field (some o) = field o

abbrev pub resolved_interpreter : Profile → Option String → String
resolved_interpreter p none = interpreter_str p.interpreter
resolved_interpreter p (some s) =
    unwrap_or (map_option interpreter_str (parse_interpreter s)) (trim s)

-- `BTreeMap::insert`
unfoldable pub insert_env : String → String → List (String × String) → List (String × String)
unfolding bytes_ltb as_bytes
insert_env k v [] = (k, v) ∷ []
insert_env k v ((x, w) ∷ rest) =
    let later = insert_env k v rest in
    if x ==ₛ k
    then (k, v) ∷ rest
    else if bytes_ltb (as_bytes k) (as_bytes x)
    then (k, v) ∷ (x, w) ∷ rest
    else (x, w) ∷ later

unfoldable pub insert_all : List (String × String) → List (String × String) → List (String × String)
unfolding insert_env
insert_all [] m = m
insert_all ((k, v) ∷ rest) m = insert_all rest (insert_env k v m)

abbrev pub override_env : Option InstallerOverride → List (String × String)
override_env none = []
override_env (some o) = o.env

-- The floor of the profile, where it is above the global timeout.
abbrev pub with_floor : ℕ → Option ℕ → ℕ
with_floor global none = global
with_floor global (some floor) = if ltb global floor then floor else global

abbrev pub is_true : Option Bool → Bool
is_true none = false
is_true (some b) = b

abbrev pub skip_reason_of : Option InstallerOverride → Option String
skip_reason_of none = none
skip_reason_of (some o) =
    if is_true o.skip
    then some (unwrap_or o.skip_reason "skipped by [installers] override")
    else none

abbrev pub or_option : {A : Type 0} → Option A → Option A → Option A
or_option none b = b
or_option (some a) b = some a

-- `resolve_spec`
unfoldable pub resolve_spec :
    String → InstallerEntry → Option InstallerOverride → GlobalDefaults → InstallerSpec
unfolding insert_all interpreter_str parse_interpreter trim
resolve_spec name entry ovr global =
    let p = profile name in
    record {
      name = name;
      url = unwrap_or entry.url "";
      sha256 = entry.sha256;
      interpreter = resolved_interpreter p (overriding (λ o. o.interpreter) ovr);
      args = unwrap_or (overriding (λ o. o.args) ovr) p.args;
      env = insert_all (override_env ovr) (insert_all p.env []);
      timeout_seconds =
          unwrap_or (overriding (λ o. o.timeout_seconds) ovr)
            (with_floor global.timeout_seconds p.min_timeout_seconds);
      retries = unwrap_or (overriding (λ o. o.retry) ovr) global.retries;
      skip_reason = skip_reason_of ovr;
      expect_binary = overriding (λ o. o.expect_binary) ovr;
      verify_cmd = overriding (λ o. o.verify_cmd) ovr;
      version_cmd = or_option (overriding (λ o. o.version_cmd) ovr) p.version_cmd;
      run_as_root = overriding (λ o. o.run_as_root) ovr;
      memory_limit = overriding (λ o. o.memory_limit) ovr;
      network = overriding (λ o. o.network) ovr;
    }

-- The text before the last character, where this is one of two.
abbrev pub strip_unit : (upper lower : ℕ) → String → Option String
strip_unit upper lower s = or_option (strip_suffix_char upper s) (strip_suffix_char lower s)

-- The number before a unit; the product of `u64`s wraps in a release build.
abbrev pub scaled : ℕ → String → Option ℕ
scaled multiplier digits = map_option (λ n. (n * multiplier) % 2 ^ 64) (parse_usize (trim digits))

abbrev pub scaled_or : ℕ → Option String → Option ℕ → Option ℕ
scaled_or multiplier none other = other
scaled_or multiplier (some digits) other = scaled multiplier digits

-- `parse_memory_limit`
unfoldable pub parse_memory_limit : String → Option ℕ
unfolding trim parse_usize strip_suffix_char
parse_memory_limit s =
    let t = trim s in
    if is_empty t
    then none
    else scaled_or (1024 * 1024 * 1024) (strip_unit 71 103 t) (
        scaled_or (1024 * 1024) (strip_unit 77 109 t)
          (scaled_or 1024 (strip_unit 75 107 t) (scaled 1 t)))

abbrev pub with_hash : Option String → InstallerTest → InstallerTest
with_hash none t = t
with_hash (some sha) t = with_sha256 t sha

-- `with_env` for each pair
unfoldable pub with_envs : List (String × String) → InstallerTest → InstallerTest
with_envs [] t = t
with_envs ((k, v) ∷ rest) t =
    with_envs rest (record t { environment = t.environment ++ (k, v) ∷ [] })

-- `u32::saturating_add(1)`
abbrev pub saturating_next : ℕ → ℕ
saturating_next n = min (n + 1) (2 ^ 32 - 1)

abbrev pub memory_of : Option String → Option ℕ
memory_of none = none
memory_of (some s) = parse_memory_limit s

-- `InstallerSpec::to_test`; the fields that a new test has as none are set from the options at once.
unfoldable pub to_test : InstallerSpec → InstallerTest
unfolding with_envs new_test with_timeout with_retry_count with_sha256 parse_memory_limit
to_test s =
    let t =
      with_retry_count (with_timeout (new_test s.name s.url) (s.timeout_seconds * 1_000_000_000))
        (max (saturating_next s.retries) 1) in
    record (with_envs s.env
      (with_hash s.sha256 (record t { interpreter = s.interpreter; args = s.args }))) {
        expect_binary = s.expect_binary;
        verify_cmd = s.verify_cmd;
        version_cmd = s.version_cmd;
        memory_limit = memory_of s.memory_limit;
        network = s.network;
        run_as_root = s.run_as_root;
      }
