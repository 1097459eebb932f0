-- ===== src/Classifier/Rules.antt =====
-- src/parser/classifier.rs: `classify_error` and `explain`. The chain of early returns is the choice
-- of a rule; each rule has the classification that its `return` builds.
use automated_flywheel_setup.Base.{
  ℕ, String, true, false, ◌&&◌, ◌||◌, Option, none, some, List, [], ◌∷◌, contains, if◌then◌else◌,
}
use automated_flywheel_setup.Base.Int.{ℤ, is_nat}
use automated_flywheel_setup.Classifier.{
  transient, configuration, dependency, permission, resource, unknown, ErrorClassification,
  timeout_marker, cancelled_marker, post_install_marker, Engine, compiled, matches,
}
use automated_flywheel_setup.Classifier.Patterns.{
  timeout_patterns, syntax_patterns, bootstrap_patterns, checksum_patterns, network_patterns,
  apt_repair_patterns, root_refusal_patterns, permission_patterns, dependency_patterns,
  resource_patterns, libc_patterns, apt_lock_patterns, oom_patterns,
}

-- The return statements of `classify_error`, from the first to the last.
pub data Rule : Type 0 where
  cancelled timed_out post_install bootstrap_mismatch checksum_mismatch apt_lock_held : Rule
  network apt_repair command_not_found root_refusal permission_denied libc_too_old : Rule
  missing_dependency out_of_memory out_of_resources syntax_error unclassified : Rule

-- What each of them returns.
abbrev pub classification : Rule → ErrorClassification
classification cancelled = record {
  severity = unknown;
  category = "cancelled";
  suggestion = some "Run was cancelled before this installer finished";
  retryable = false;
  confidence = 100;
}
classification timed_out = record {
  severity = transient;
  category = "timeout";
  suggestion = some "Increase the timeout or add an [installers.<name>] timeout_seconds override";
  retryable = false;
  confidence = 95;
}
classification post_install = record {
  severity = configuration;
  category = "post_install";
  suggestion =
      some "Installer exited 0 but post-install verification failed; inspect verify_cmd output";
  retryable = false;
  confidence = 95;
}
classification bootstrap_mismatch = record {
  severity = configuration;
  category = "bootstrap_mismatch";
  suggestion = some "Regenerate manifest_index.sh to fix bootstrap mismatch";
  retryable = false;
  confidence = 95;
}
classification checksum_mismatch = record {
  severity = configuration;
  category = "checksum_mismatch";
  suggestion = some "Update checksums.yaml with new hash or verify installer integrity";
  retryable = false;
  confidence = 95;
}
classification apt_lock_held = record {
  severity = transient;
  category = "dependency";
  suggestion =
      some "Another apt/dpkg process holds the lock; wait for it (unattended-upgrades) and retry";
  retryable = true;
  confidence = 90;
}
classification network = record {
  severity = transient;
  category = "network";
  suggestion = some "Check network connectivity and retry";
  retryable = true;
  confidence = 90;
}
classification apt_repair = record {
  severity = dependency;
  category = "apt_repair_failed";
  suggestion = some "Repair dpkg/apt package state before retrying ACFS";
  retryable = false;
  confidence = 90;
}
classification command_not_found = record {
  severity = dependency;
  category = "command_not_found";
  suggestion = some "Required command is not installed";
  retryable = false;
  confidence = 95;
}
classification root_refusal = record {
  severity = permission;
  category = "permission";
  suggestion =
      some
        "Installer refuses to run as root; run as a non-root user (the default afsc-base image does)";
  retryable = false;
  confidence = 95;
}
classification permission_denied = record {
  severity = permission;
  category = "permission";
  suggestion = some "Check file permissions or run with elevated privileges";
  retryable = false;
  confidence = 85;
}
classification libc_too_old = record {
  severity = dependency;
  category = "dependency";
  suggestion =
      some
        "The downloaded binary needs a newer glibc/libstdc++ than this base image provides; use a newer base (docker.image, e.g. ubuntu:24.04) or a build for this platform";
  retryable = false;
  confidence = 90;
}
classification missing_dependency = record {
  severity = dependency;
  category = "dependency";
  suggestion = some "Install missing dependencies";
  retryable = false;
  confidence = 80;
}
classification out_of_memory = record {
  severity = resource;
  category = "resource";
  suggestion =
      some
        "Killed (exit 137 / out of memory): raise [docker].memory_limit or [installers.<name>].memory_limit";
  retryable = false;
  confidence = 85;
}
classification out_of_resources = record {
  severity = resource;
  category = "resource";
  suggestion = some "Check available disk space and memory";
  retryable = false;
  confidence = 75;
}
classification syntax_error = record {
  severity = configuration;
  category = "syntax_error";
  suggestion = some "Fix syntax error in script";
  retryable = false;
  confidence = 85;
}
classification unclassified = record {
  severity = unknown;
  category = "unknown";
  suggestion = none;
  retryable = false;
  confidence = 0;
}

-- The groups that `explain` tries, in its order.
abbrev pub groups : List (String × List String)
groups =
    ("timeout", timeout_patterns)
    ∷ ("bootstrap_mismatch", bootstrap_patterns)
    ∷ ("checksum_mismatch", checksum_patterns)
    ∷ ("network", network_patterns)
    ∷ ("apt_repair_failed", apt_repair_patterns)
    ∷ ("permission", root_refusal_patterns)
    ∷ ("permission", permission_patterns)
    ∷ ("dependency", dependency_patterns)
    ∷ ("resource", resource_patterns)
    ∷ ("syntax_error", syntax_patterns)
    ∷ []

-- The exit codes that `explain` looks at after the groups.
abbrev pub explain_code : ℤ → Option (String × String × ℕ)
explain_code exit_code =
    if is_nat exit_code 127
    then some ("command_not_found", "exit code 127", 0)
    else if is_nat exit_code 126
    then some ("permission", "exit code 126", 0)
    else if is_nat exit_code 137
    then some ("resource", "exit code 137 (SIGKILL / OOM)", 0)
    else none

module _ (e : Engine) where
  -- The conditions, in the order of the source.
  unfoldable pub first_rule : String → ℤ → Rule
  first_rule stderr exit_code =
      if contains stderr cancelled_marker
      then cancelled
      else if contains stderr timeout_marker || matches e timeout_patterns stderr
      then timed_out
      else if contains stderr post_install_marker
      then post_install
      else if matches e bootstrap_patterns stderr
      then bootstrap_mismatch
      else if matches e checksum_patterns stderr
      then checksum_mismatch
      else if matches e apt_lock_patterns stderr
      then apt_lock_held
      else if matches e network_patterns stderr
      then network
      else if matches e apt_repair_patterns stderr
      then apt_repair
      else if is_nat exit_code 127
      then command_not_found
      else if matches e root_refusal_patterns stderr
      then root_refusal
      else if matches e permission_patterns stderr
          || is_nat exit_code 126
          || is_nat exit_code 1 && contains stderr "Permission denied"
      then permission_denied
      else if matches e libc_patterns stderr
      then libc_too_old
      else if matches e dependency_patterns stderr
      then missing_dependency
      else if is_nat exit_code 137 || matches e oom_patterns stderr
      then out_of_memory
      else if matches e resource_patterns stderr
      then out_of_resources
      else if matches e syntax_patterns stderr
      then syntax_error
      else unclassified

  unfoldable pub classify_error : String → ℤ → ErrorClassification
  unfolding first_rule
  classify_error stderr exit_code = classification (first_rule stderr exit_code)

  -- The inner loop of `explain`: the first pattern of the group that is found, and where.
  unfoldable pub first_found : String → List String → Option (String × ℕ)
  first_found stderr [] = none
  first_found stderr (p ∷ ps) = elim (e.find p stderr) [
    | none ↦ first_found stderr ps
    | some start ↦ some (p, start)
  ]

  -- Its outer loop, over the groups.
  unfoldable pub explain_groups :
      String → List (String × List String) → Option (String × String × ℕ)
  explain_groups stderr [] = none
  explain_groups stderr ((category, patterns) ∷ groups) =
      elim (first_found stderr (compiled e patterns)) [
        | none ↦ explain_groups stderr groups
        | some (p, start) ↦ some (category, p, start)
      ]

  unfoldable pub explain : String → ℤ → Option (String × String × ℕ)
  explain stderr exit_code = elim (explain_groups stderr groups) [
    | some found ↦ some found
    | none ↦ explain_code exit_code
  ]
