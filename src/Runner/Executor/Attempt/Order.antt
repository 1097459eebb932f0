-- ===== src/Runner/Executor/Attempt/Order.antt =====
-- src/runner/executor.rs: the order of an attempt's effects, as the language of a small automaton.
use text.Mathlib.TextEquality.{eq_iff}
use automated_flywheel_setup.Base.{
  ℕ, String, ◌≡◌, refl, ap, Bool, true, false, Option, none, some, List, [], ◌∷◌, ◌++◌, map, inl,
  inr, Bool-cases, ◌==ₛ◌, if◌then◌else◌,
}
use automated_flywheel_setup.Runner.Installer.{TestResult, InstallerTest, new, with_container_id}
use automated_flywheel_setup.Runner.Executor.{
  Fallible, ok, err, Libs, ContainerConfig, PullPolicy, RunnerConfig, ExecutionBackend, docker,
  local, Effect, created_container, started_container, downloaded, ran_install_script,
  ran_installer, ran_check, removed_container,
}
use automated_flywheel_setup.Runner.Executor.Docker.{
  DockerWorld, effective_config, is_created, bring_up, start_effects, in_container, with_container,
  with_manager, with_samples, after_exec, run_test_docker,
}
use automated_flywheel_setup.Runner.Executor.Local.{
  LocalWorld, Curl, exited, no_curl, succeeded, compare_hash, run_script, verify_bytes,
  verify_and_run, after_download, in_temp_dir, run_test_local, after_outcome,
}
use automated_flywheel_setup.Runner.Executor.Attempt.{World, on_backend, run_test}

-- Where an attempt is: nothing done; a container is created, then started, then has run the script; it is
-- removed, or was never created; it was not started, and is left; the script is downloaded; it ran.
pub data Phase : Type 0 where
  idle : Phase
  with_container_created : String → Phase
  with_container_up : String → Phase
  script_ran : String → Phase
  gone : Phase
  left_behind : String → Phase
  fetched : Phase
  installed : Phase

-- The phase behind an effect, `none` where the effect is out of order.
abbrev pub advance : {F : Type 0} → Phase → Effect F → Option Phase
advance idle (created_container name c policy (some id)) = some (with_container_created id)
advance idle (created_container name c policy none) = some gone
advance (with_container_created id) (started_container other success) =
    if id ==ₛ other then some (if success then with_container_up id else left_behind id) else none
advance idle (downloaded url path) = some fetched
advance (with_container_up id) (ran_install_script script) = some (script_ran id)
advance (script_ran id) (ran_check cmd) = some (script_ran id)
advance (script_ran id) (removed_container other) = if id ==ₛ other then some gone else none
advance fetched (ran_installer command env) = some installed
advance installed (ran_check cmd) = some installed
advance _ _ = none

-- No container that was started is left.
abbrev pub is_clean : Phase → Bool
is_clean (with_container_created id) = false
is_clean (with_container_up id) = false
is_clean (script_ran id) = false
is_clean _ = true

-- The effects are in order from a phase on, and leave no container that was started.
unfoldable pub follows : {F : Type 0} → Phase → List (Effect F) → Bool
follows p [] = is_clean p
follows p (e ∷ es) = elim (advance p e) [ none ↦ false | some q ↦ follows q es ]

container_checks :
    (F : Type 0) (id : String) (checks : List String)
    → follows {F = F} (script_ran id) (map ran_check checks ++ removed_container id ∷ []) ≡ true
unfolding follows
container_checks F id [] = closed (id ==ₛ id) ((eq_iff id id).1 refl)
  where
    closed :
        (b : Bool)
        → b ≡ true
        → elim (if b then some gone else none) [ none ↦ false | some q ↦ follows {F = F} q [] ]
          ≡ true
    closed true e = refl
    closed false e = absurd (cc e)
container_checks F id (c ∷ checks) = container_checks F id checks

local_checks :
    (F : Type 0) (checks : List String) → follows {F = F} installed (map ran_check checks) ≡ true
unfolding follows
local_checks F [] = refl
local_checks F (c ∷ checks) = local_checks F checks

module _ {F : Type 0} (libs : Libs) (config : RunnerConfig F) (test : InstallerTest) where
  -- Behind the start, by how it ended.
  started-follows :
      (id : String) (success same : Bool) (es : List (Effect F))
      → same ≡ true
      → (success ≡ true → follows (with_container_up id) es ≡ true)
      → (success ≡ false → es ≡ [])
      → elim (if same
          then some (if success then with_container_up id else left_behind id)
          else none) [ none ↦ false | some q ↦ follows q es ]
        ≡ true
  unfolding follows
  started-follows id true true es same up left = up refl
  started-follows id false true es same up left = ap (follows (left_behind id)) (left refl)
  started-follows id success false es same up left = absurd (cc same)

  with_container-follows :
      (w : DockerWorld) (c : ContainerConfig F) (policy : PullPolicy) (created : Fallible String)
      (start : Fallible Unit)
      → follows idle (
          created_container test.name c policy (is_created created)
          ∷ (start_effects created start
              ++ (with_container libs config test w (bring_up created start)).1))
        ≡ true
  unfolding with_container in_container follows bring_up
  with_container-follows w c policy (err e) start = refl
  with_container-follows w c policy (ok id) (err e) =
      started-follows id false (id ==ₛ id) [] ((eq_iff id id).1 refl) (λ h. absurd (cc h))
        (λ h. refl)
  with_container-follows w c policy (ok id) (ok u) =
      started-follows id true (id ==ₛ id) (in_container libs config test w id).1
        ((eq_iff id id).1 refl)
        (λ h.
          container_checks F id
            (after_exec libs config test w
              (with_samples (with_container_id (new test.name w.started) id) w.telemetry) w.exec).1)
        (λ h. absurd (cc h))

  run_test_docker-follows :
      (c : ContainerConfig F) (policy : PullPolicy) (w : DockerWorld) (o : Fallible Unit)
      → follows idle (with_manager libs config test c policy w o).1 ≡ true
  unfolding with_manager follows
  run_test_docker-follows c policy w (err e) = refl
  run_test_docker-follows c policy w (ok u) =
      with_container-follows w (effective_config config test c) policy w.created w.container_started

  run_script-follows :
      (w : LocalWorld) (dir : String) (r : TestResult) (o : Fallible Unit)
      → follows fetched (run_script libs config test w dir r o).1 ≡ true
  unfolding run_script follows
  run_script-follows w dir r (err e) = refl
  run_script-follows w dir r (ok u) =
      local_checks F (after_outcome libs config test w r w.outcome).1

  verify_bytes-follows :
      (w : LocalWorld) (dir : String) (r : TestResult) (expected : String) (o : Fallible (List ℕ))
      → follows fetched (verify_bytes libs config test w dir r expected o).1 ≡ true
  unfolding verify_bytes follows
  verify_bytes-follows w dir r expected (err e) = refl
  verify_bytes-follows w dir r expected (ok bytes) =
      elim (Bool-cases (compare_hash libs config test w expected bytes).matches) [
        | inl same ↦ simp same (run_script-follows w dir _ w.spawned)
        | inr other ↦ rw other refl
      ]

  verify_and_run-follows :
      (w : LocalWorld) (dir : String) (r : TestResult) (o : Option String)
      → follows fetched (verify_and_run libs config test w dir r o).1 ≡ true
  unfolding verify_and_run
  verify_and_run-follows w dir r none = run_script-follows w dir r w.spawned
  verify_and_run-follows w dir r (some expected) =
      verify_bytes-follows w dir r expected w.file_bytes

  after_download-follows :
      (w : LocalWorld) (dir : String) (r : TestResult) (o : Curl)
      → follows idle (after_download libs config test w dir r o).1 ≡ true
  unfolding after_download follows
  after_download-follows w dir r (no_curl e) = refl
  after_download-follows w dir r (exited code stderr) = elim (Bool-cases (succeeded code)) [
    | inl fine ↦ rw fine (verify_and_run-follows w dir r test.expected_sha256)
    | inr other ↦ rw other refl
  ]

  in_temp_dir-follows :
      (w : LocalWorld) (o : Fallible String)
      → follows idle (in_temp_dir libs config test w o).1 ≡ true
  unfolding in_temp_dir follows
  in_temp_dir-follows w (err e) = refl
  in_temp_dir-follows w (ok dir) = after_download-follows w dir _ w.curl

  on_backend-follows :
      (w : World) (b : ExecutionBackend F) → follows idle (on_backend libs config test w b).1 ≡ true
  unfolding on_backend run_test_docker run_test_local
  on_backend-follows w (docker c policy) =
      run_test_docker-follows c policy w.in_docker w.in_docker.manager
  on_backend-follows w local = in_temp_dir-follows w.in_local w.in_local.temp_dir

  -- Whatever an attempt meets, its effects are in order: a container that was created is started, and then
  -- has the install script run in it, then the checks, and is removed at the end; one whose start fails is
  -- left as it is, with nothing behind; a local script is downloaded, then run, then checked; and nothing
  -- happens where the run was cancelled before.
  pub run_test-follows : (w : World) → follows idle (run_test libs config test w).1 ≡ true
  unfolding run_test follows
  run_test-follows w = elim (Bool-cases w.is_cancelled) [
    | inl stop ↦ rw stop refl
    | inr on ↦ simp on (on_backend-follows w config.backend)
  ]
