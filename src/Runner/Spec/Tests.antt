-- ===== src/Runner/Spec/Tests.antt =====
-- src/runner/spec.rs: rust with an override, and memory limits.
use automated_flywheel_setup.Base.{◌*◌, ◌≡◌, refl, none, some, [], ◌∷◌, max, unwrap_or, arith}
use automated_flywheel_setup.Runner.Profile.{profile}
use automated_flywheel_setup.Runner.Spec.{
  InstallerEntry, InstallerOverride, GlobalDefaults, overriding, override_env, or_option,
  resolve_spec, parse_memory_limit, to_test,
}
use automated_flywheel_setup.Runner.Spec.Precedence.{value_of, last_value_of, to_test-resolve_spec}

two_gigabytes : parse_memory_limit " 2G " ≡ some 2_147_483_648
unfolding parse_memory_limit
two_gigabytes = refl

no_number : parse_memory_limit "lots" ≡ none
unfolding parse_memory_limit
no_number = refl

abbrev rust : InstallerEntry
rust = record { url = some "https://sh.rustup.rs"; sha256 = none }

abbrev patient : InstallerOverride
patient = record {
  timeout_seconds = none;
  retry = some 1;
  interpreter = none;
  args = none;
  env = ("RUSTUP_HOME", "/opt/rustup") ∷ [];
  skip = none;
  skip_reason = none;
  expect_binary = some "cargo";
  verify_cmd = none;
  version_cmd = none;
  run_as_root = none;
  memory_limit = some "2G";
  network = none;
}

abbrev global : GlobalDefaults
global = record { timeout_seconds = 300; retries = 3 }

rust_args : (to_test (resolve_spec "rust" rust (some patient) global)).args ≡ "-y" ∷ []
unfolding to_test resolve_spec profile
rust_args = refl

rust_timeout : (to_test (resolve_spec "rust" rust (some patient) global)).timeout_seconds ≡ 600
unfolding to_test resolve_spec profile
rust_timeout = refl

to_test-resolve_spec_example :
    let t = to_test (resolve_spec "rust" rust (some patient) global) in
    let seconds =
      unwrap_or
        (overriding (λ o. o.timeout_seconds) (some patient))
        (max 300 (unwrap_or (profile "rust").min_timeout_seconds 0)) in
    (t.timeout ≡ seconds * 1_000_000_000)
    × (t.timeout_seconds ≡ seconds)
    × (t.retry_count ≡ 2)
    × (value_of "RUSTUP_HOME" t.environment
        ≡ or_option
            (last_value_of "RUSTUP_HOME" (override_env (some patient)))
            (last_value_of "RUSTUP_HOME" (profile "rust").env))
to_test-resolve_spec_example =
    to_test-resolve_spec "rust" rust (some patient) global "RUSTUP_HOME" (omega arith)
