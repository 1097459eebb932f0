-- ===== src/Runner/Spec/Precedence.antt =====
-- src/runner/spec.rs: which limits and which environment the test of an installer gets.
use automated_flywheel_setup.Base.{
  ℕ, ◌+◌, ◌*◌, ◌^◌, ◌<◌, ◌/◌, String, ◌≡◌, refl, sym, ap, ◌∙◌, eq_iff, Bool, Bool-cases, true,
  false, Option, none, some, List, [], ◌∷◌, ◌++◌, ◌-◌, max, min, as_bytes, unwrap_or, arith, inl,
  inr, ◌==ₛ◌, if◌then◌else◌,
}
use mathlib.Core.List.{append_assoc, append-nil}
use automated_flywheel_setup.Reporting.Diff.{bytes_ltb}
use automated_flywheel_setup.Runner.Installer.{
  InstallerTest, new_test, with_timeout, with_retry_count, with_sha256,
}
use automated_flywheel_setup.Runner.Profile.{profile}
use automated_flywheel_setup.Runner.Spec.{
  InstallerEntry, InstallerOverride, GlobalDefaults, InstallerSpec, overriding, override_env,
  insert_env, insert_all, with_floor, or_option, resolve_spec, with_hash, with_envs, to_test,
}

-- The value of a variable, the first one.
unfoldable pub value_of : String → List (String × String) → Option String
value_of key [] = none
value_of key ((k, v) ∷ rest) = let later = value_of key rest in if k ==ₛ key then some v else later

-- The last value that a list gives a variable.
unfoldable pub last_value_of : String → List (String × String) → Option String
last_value_of key [] = none
last_value_of key ((k, v) ∷ rest) =
    or_option (last_value_of key rest) (if k ==ₛ key then some v else none)

value_of-insert_env :
    (key k v : String) (m : List (String × String))
    → value_of key (insert_env k v m) ≡ (if k ==ₛ key then some v else value_of key m)
unfolding value_of insert_env
value_of-insert_env key k v [] = refl
value_of-insert_env key k v ((x, w) ∷ rest) =
    let behind = value_of-insert_env key k v rest in
    elim (Bool-cases (x ==ₛ k)) [
      | inl same ↦
          let e : x ≡ k = (eq_iff x k).0 same in
          rw e (let self : (k ==ₛ k) ≡ true = (eq_iff k k).1 refl in simp self (ground arith))
      | inr other ↦ elim (Bool-cases (bytes_ltb (as_bytes k) (as_bytes x))) [
        | inl before ↦ simp (other, before) refl
        | inr after ↦
            simp (other, after) (ground (arith, behind, eq_iff k key, eq_iff x key, eq_iff x k))
      ]
    ]

value_of-insert_all :
    (key : String) (es m : List (String × String))
    → value_of key (insert_all es m) ≡ or_option (last_value_of key es) (value_of key m)
unfolding insert_all last_value_of
value_of-insert_all key [] m = refl
value_of-insert_all key ((k, v) ∷ rest) m =
    value_of-insert_all key rest (insert_env k v m)
    ∙ ap (or_option (last_value_of key rest)) (value_of-insert_env key k v m)
    ∙ or_either (last_value_of key rest) (k ==ₛ key) v (value_of key m)
  where
    or_either :
        (a : Option String) (b : Bool) (v : String) (c : Option String)
        → or_option a (if b then some v else c)
          ≡ or_option (or_option a (if b then some v else none)) c
    or_either none true v c = refl
    or_either none false v c = refl
    or_either (some a) b v c = refl

or_option-none : (a : Option String) → or_option a none ≡ a
or_option-none none = refl
or_option-none (some v) = refl

environment-with_envs :
    (es : List (String × String)) (t : InstallerTest)
    → (with_envs es t).environment ≡ t.environment ++ es
unfolding with_envs
environment-with_envs [] t = sym (append-nil t.environment)
environment-with_envs ((k, v) ∷ rest) t =
    environment-with_envs rest (record t { environment = t.environment ++ (k, v) ∷ [] })
    ∙ append_assoc t.environment ((k, v) ∷ []) rest

timeout_seconds-with_envs :
    (es : List (String × String)) (t : InstallerTest)
    → ((with_envs es t).timeout_seconds ≡ t.timeout_seconds)
      × ((with_envs es t).retry_count ≡ t.retry_count)
      × ((with_envs es t).timeout ≡ t.timeout)
unfolding with_envs
timeout_seconds-with_envs [] t = (refl, refl, refl)
timeout_seconds-with_envs ((k, v) ∷ rest) t =
    timeout_seconds-with_envs rest (record t { environment = t.environment ++ (k, v) ∷ [] })

with_floor-max :
    (global : ℕ) (floor : Option ℕ) → with_floor global floor ≡ max global (unwrap_or floor 0)
with_floor-max global none = omega arith
with_floor-max global (some floor) = ground arith

-- A hash leaves the limits and the environment.
with_hash-fields :
    (sha : Option String) (t : InstallerTest)
    → ((with_hash sha t).timeout_seconds ≡ t.timeout_seconds)
      × ((with_hash sha t).retry_count ≡ t.retry_count)
      × ((with_hash sha t).environment ≡ t.environment)
      × ((with_hash sha t).timeout ≡ t.timeout)
unfolding with_sha256
with_hash-fields none t = (refl, refl, refl, refl)
with_hash-fields (some sha) t = (refl, refl, refl, refl)

-- A test has the limits and the environment of its specification.
to_test-fields :
    (s : InstallerSpec)
    → s.retries + 1 < 2 ^ 32
    → ((to_test s).timeout_seconds ≡ s.timeout_seconds)
      × ((to_test s).retry_count ≡ s.retries + 1)
      × ((to_test s).environment ≡ s.env)
      × ((to_test s).timeout ≡ s.timeout_seconds * 1_000_000_000)
unfolding to_test with_timeout with_retry_count new_test
to_test-fields s small =
    let base : InstallerTest =
      record (with_retry_count
        (with_timeout (new_test s.name s.url) (s.timeout_seconds * 1_000_000_000))
        (max (min (s.retries + 1) (2 ^ 32 - 1)) 1)) {
          interpreter = s.interpreter;
          args = s.args;
        } in
    let (t, n, d) = timeout_seconds-with_envs s.env (with_hash s.sha256 base) in
    let (t', n', e', d') = with_hash-fields s.sha256 base in
    (
      t
          ∙ t'
          ∙ (let whole : (s.timeout_seconds * 1_000_000_000) / 1_000_000_000 ≡ s.timeout_seconds =
                omega arith in
              whole),
      n
          ∙ n'
          ∙ (let count : max (min (s.retries + 1) (2 ^ 32 - 1)) 1 ≡ s.retries + 1 = omega arith in
              count),
      environment-with_envs s.env (with_hash s.sha256 base)
          ∙ ap (λ (l : List (String × String)). l ++ s.env) e',
      d ∙ d',
    )

-- The test of an installer gets the timeout of its override, else the greater one of the global timeout
-- and the floor of its profile, both as the duration, in nanoseconds, that an attempt is limited to and in
-- whole seconds; it is attempted once more often than it has retries, those of the override
-- or else the global ones, where these are below 2^32 - 1; and a variable has the last value that the
-- override gives it, else the last value of the profile, else none.
pub to_test-resolve_spec :
    (name : String) (entry : InstallerEntry) (ovr : Option InstallerOverride)
    (global : GlobalDefaults) (key : String)
    → unwrap_or (overriding (λ o. o.retry) ovr) global.retries + 1 < 2 ^ 32
    → let t = to_test (resolve_spec name entry ovr global) in
      let seconds =
        unwrap_or
          (overriding (λ o. o.timeout_seconds) ovr)
          (max global.timeout_seconds (unwrap_or (profile name).min_timeout_seconds 0)) in
      (t.timeout ≡ seconds * 1_000_000_000)
      × (t.timeout_seconds ≡ seconds)
      × (t.retry_count ≡ unwrap_or (overriding (λ o. o.retry) ovr) global.retries + 1)
      × (value_of key t.environment
          ≡ or_option (last_value_of key (override_env ovr)) (last_value_of key (profile name).env))
unfolding resolve_spec value_of
to_test-resolve_spec name entry ovr global key small =
    let s = resolve_spec name entry ovr global in
    let (t, n, e, d) = to_test-fields s small in
    let seconds =
      ap (unwrap_or (overriding (λ o. o.timeout_seconds) ovr))
        (with_floor-max global.timeout_seconds (profile name).min_timeout_seconds) in
    (
      d ∙ ap (λ n. n * 1_000_000_000) seconds,
      t ∙ seconds,
      n,
      ap (value_of key) e
          ∙ value_of-insert_all key (override_env ovr) (insert_all (profile name).env [])
          ∙ ap (or_option (last_value_of key (override_env ovr))) (
              value_of-insert_all key (profile name).env []
              ∙ or_option-none (last_value_of key (profile name).env)),
    )
