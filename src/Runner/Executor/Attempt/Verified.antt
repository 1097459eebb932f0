-- ===== src/Runner/Executor/Attempt/Verified.antt =====
-- src/runner/executor.rs: the local backend runs a pinned script only if its hash is the pinned one.
use mathlib.Core.Path.{subst}
use text.Mathlib.TextEquality.{eq_iff}
use automated_flywheel_setup.Base.{
  ℕ, String, ◌≡◌, ◌≢◌, refl, ap, ◌∙◌, false, Option, none, some, List, [], ◌∷◌, arith, inl, inr,
  Bool-cases, ◌==ₛ◌, Among,
}
use automated_flywheel_setup.Base.Int.{pos}
use automated_flywheel_setup.Runner.Installer.{
  TestResult, ChecksumResult, InstallerTest, failed, mismatch, new, with_checksum_result,
}
use automated_flywheel_setup.Runner.Executor.{
  Fallible, ok, err, Libs, RunnerConfig, Effect, downloaded, ran_installer,
}
use automated_flywheel_setup.Runner.Executor.Local.{
  LocalWorld, Curl, exited, no_curl, succeeded, compare_hash, mismatched, verify_bytes,
  verify_and_run, after_download, in_temp_dir, run_test_local, script_file,
}
use automated_flywheel_setup.Runner.Executor.Retries.{should_retry_result}

module _ {F : Type 0} (libs : Libs) (config : RunnerConfig F) (test : InstallerTest)
    (w : LocalWorld) where
  -- The bytes of the staged script have the hash `expected`.
  abbrev pub IsVerified : String → Type 0
  IsVerified expected =
      (bytes : List ℕ) × (w.file_bytes ≡ ok bytes) × (libs.sha256_hex bytes ≡ expected)

  verify_bytes-IsVerified :
      (dir expected command : String) (env : List (String × String)) (r : TestResult)
      (o : Fallible (List ℕ))
      → w.file_bytes ≡ o
      → Among (ran_installer command env) (verify_bytes libs config test w dir r expected o).1
      → IsVerified expected
  unfolding verify_bytes compare_hash
  verify_bytes-IsVerified dir expected command env r (err e) from h = absurd h
  verify_bytes-IsVerified dir expected command env r (ok bytes) from h =
      elim (Bool-cases (libs.sha256_hex bytes ==ₛ expected)) [
        | inl same ↦ (bytes, from, (eq_iff _ expected).0 same)
        | inr other ↦ absurd (subst (Among (ran_installer command env)) (nothing_ran other) h)
      ]
    where
      nothing_ran :
          (libs.sha256_hex bytes ==ₛ expected) ≡ false
          → (verify_bytes libs config test w dir r expected (ok bytes)).1 ≡ []
      nothing_ran other = simp other refl

  verify_and_run-IsVerified :
      (dir expected command : String) (env : List (String × String)) (r : TestResult)
      (o : Option String)
      → o ≡ some expected
      → Among (ran_installer command env) (verify_and_run libs config test w dir r o).1
      → IsVerified expected
  unfolding verify_and_run
  verify_and_run-IsVerified dir expected command env r none pinned h = absurd (cc pinned)
  verify_and_run-IsVerified dir expected command env r (some other) pinned h =
      let e : other ≡ expected = cc pinned in
      verify_bytes-IsVerified dir expected command env r w.file_bytes refl (
        subst
          (λ x.
            Among (ran_installer command env)
              (verify_bytes libs config test w dir r x w.file_bytes).1)
          e h)

  after_download-IsVerified :
      (dir expected command : String) (env : List (String × String)) (r : TestResult) (o : Curl)
      → test.expected_sha256 ≡ some expected
      → Among (ran_installer command env) (after_download libs config test w dir r o).1
      → IsVerified expected
  unfolding after_download
  after_download-IsVerified dir expected command env r (no_curl e) pinned h = absurd h
  after_download-IsVerified dir expected command env r (exited code stderr) pinned h =
      elim (Bool-cases (succeeded code)) [
        | inl fine ↦ elim (simp fine at h) [
          | inl same ↦ absurd (cc same)
          | inr later ↦
              verify_and_run-IsVerified dir expected command env r test.expected_sha256 pinned later
        ]
        | inr other ↦ elim (simp other at h) [
          | inl same ↦ absurd (cc same)
          | inr nothing ↦ absurd nothing
        ]
      ]

  in_temp_dir-IsVerified :
      (expected command : String) (env : List (String × String)) (o : Fallible String)
      → test.expected_sha256 ≡ some expected
      → Among (ran_installer command env) (in_temp_dir libs config test w o).1
      → IsVerified expected
  unfolding in_temp_dir
  in_temp_dir-IsVerified expected command env (err e) pinned h = absurd h
  in_temp_dir-IsVerified expected command env (ok dir) pinned h =
      after_download-IsVerified dir expected command env _ w.curl pinned h

  -- Where a hash is pinned and the local backend runs an installer, the bytes of the staged file were
  -- read and have that hash.
  pub run_test_local-IsVerified :
      (expected command : String) (env : List (String × String))
      → test.expected_sha256 ≡ some expected
      → Among (ran_installer command env) (run_test_local libs config test w).1
      → IsVerified expected
  unfolding run_test_local
  run_test_local-IsVerified expected command env pinned h =
      in_temp_dir-IsVerified expected command env w.temp_dir pinned h

  -- The bytes that differ, refused.
  verify_bytes-mismatch :
      (dir expected : String) (r : TestResult) (bytes : List ℕ)
      → libs.sha256_hex bytes ≢ expected
      → verify_bytes libs config test w dir r expected (ok bytes) ≡ (
        ok (mismatched libs config test w (compare_hash libs config test w expected bytes) r),
        [],
      )
  unfolding verify_bytes compare_hash
  verify_bytes-mismatch dir expected r bytes differs =
      elim (Bool-cases (libs.sha256_hex bytes ==ₛ expected)) [
        | inl same ↦ absurd (differs ((eq_iff _ expected).0 same))
        | inr other ↦ simp other refl
      ]

  run_test_local-refused :
      (dir expected : String) (stderr bytes : List ℕ)
      → w.temp_dir ≡ ok dir
      → w.curl ≡ exited (some (pos 0)) stderr
      → test.expected_sha256 ≡ some expected
      → w.file_bytes ≡ ok bytes
      → libs.sha256_hex bytes ≢ expected
      → run_test_local libs config test w ≡ (
        ok (
            mismatched libs config test w
              (compare_hash libs config test w expected bytes)
              (new test.name w.started)),
        downloaded test.url (script_file test dir) ∷ [],
      )
  unfolding run_test_local in_temp_dir after_download verify_and_run
  run_test_local-refused dir expected stderr bytes staged fetched pinned read differs =
      let r = new test.name w.started in
      let behind : Fallible TestResult × List (Effect F) → Fallible TestResult × List (Effect F) =
        λ x. (x.0, downloaded test.url (script_file test dir) ∷ x.1) in
      ap (in_temp_dir libs config test w) staged
      ∙ (ap (after_download libs config test w dir r) fetched
          ∙ (ap (λ o. behind (verify_and_run libs config test w dir r o)) pinned
              ∙ (ap (λ o. behind (verify_bytes libs config test w dir r expected o)) read
                  ∙ ap behind (verify_bytes-mismatch dir expected r bytes differs))))

  mismatched-is_final :
      (c : ChecksumResult) (r : TestResult)
      → c.matches ≡ false
      → (should_retry_result libs (mismatched libs config test w c r) ≡ false)
        × ((mismatched libs config test w c r).checksum_state ≡ mismatch)
  unfolding mismatched should_retry_result with_checksum_result
  mismatched-is_final c r h = (ground arith, ground arith)

  compare_hash-differs :
      (expected : String) (bytes : List ℕ)
      → libs.sha256_hex bytes ≢ expected
      → (compare_hash libs config test w expected bytes).matches ≡ false
  unfolding compare_hash
  compare_hash-differs expected bytes differs =
      elim (Bool-cases (libs.sha256_hex bytes ==ₛ expected)) [
        | inl same ↦ absurd (differs ((eq_iff _ expected).0 same))
        | inr other ↦ other
      ]

  -- What a mismatch leads to: the download is the only effect, the result failed with exit code 99 and
  -- the state `mismatch`, and the policy does not retry it, whatever its classification.
  abbrev pub IsRefused : String → Fallible TestResult × List (Effect F) → Type 0
  IsRefused dir attempt =
      (r : TestResult) × (attempt.0 ≡ ok r)
      × (attempt.1 ≡ downloaded test.url (script_file test dir) ∷ [])
      × (r.status ≡ failed)
      × (r.checksum_state ≡ mismatch)
      × (r.exit_code ≡ some (pos 99))
      × (should_retry_result libs r ≡ false)

  -- Where the download succeeds and the bytes of the staged file do not have the pinned hash, the
  -- local backend downloads and does nothing else, and its failed result is not one to retry.
  pub run_test_local-mismatch :
      (dir expected : String) (stderr bytes : List ℕ)
      → w.temp_dir ≡ ok dir
      → w.curl ≡ exited (some (pos 0)) stderr
      → test.expected_sha256 ≡ some expected
      → w.file_bytes ≡ ok bytes
      → libs.sha256_hex bytes ≢ expected
      → IsRefused dir (run_test_local libs config test w)
  unfolding mismatched with_checksum_result
  run_test_local-mismatch dir expected stderr bytes staged fetched pinned read differs =
      let e = run_test_local-refused dir expected stderr bytes staged fetched pinned read differs in
      let (final, state) =
        mismatched-is_final (compare_hash libs config test w expected bytes)
          (new test.name w.started) (compare_hash-differs expected bytes differs) in
      (_, ap (λ x. x.0) e, ap (λ x. x.1) e, refl, state, refl, final)
