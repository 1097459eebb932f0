-- ===== src/Runner/Executor/Checks.antt =====
-- src/runner/executor.rs: `parse_checksum_result`, which reads the verdict of the install script, and
-- `post_install`, the checks behind a passing install.
use automated_flywheel_setup.Base.{
  ℕ, String, ◌++ₛ◌, Bool, true, false, not, ◌&&◌, ◌||◌, Option, none, some, List, [], ◌∷◌, ◌++◌,
  contains, concat, show_ℤ, lines, trim, is_empty, first_word, strip_prefix, second_piece,
  unwrap_or, map_option, if◌then◌else◌,
}
use automated_flywheel_setup.Base.Int.{ℤ, is_nat}
use automated_flywheel_setup.Classifier.{post_install_marker}
use automated_flywheel_setup.Reporting.Redact.{redact}
use automated_flywheel_setup.Runner.Capture.{tail}
use automated_flywheel_setup.Runner.Installer.{TestResult, ChecksumResult, InstallerTest, failed}
use automated_flywheel_setup.Runner.Shell.{shell_quote}
use automated_flywheel_setup.Runner.Executor.{Fallible, ok, err, Libs}

-- `Iterator::find`
unfoldable pub find_line : (String → Bool) → List String → Option String
find_line p [] = none
find_line p (l ∷ ls) = let rest = find_line p ls in if p l then some l else rest

-- `Iterator::find_map`
unfoldable pub find_map_line : (String → Option String) → List String → Option String
find_map_line f [] = none
find_map_line f (l ∷ ls) = elim (f l) [ some a ↦ some a | none ↦ find_map_line f ls ]

abbrev pub mismatch_line : String → Bool
mismatch_line l = contains l "CHECKSUM_MISMATCH"

-- The hash that the mismatch line names.
unfoldable pub actual_of_mismatch : String → String
actual_of_mismatch stderr = elim (find_line mismatch_line (lines stderr)) [
  | none ↦ "unknown"
  | some l ↦ elim (second_piece l "actual=") [
    | none ↦ "unknown"
    | some s ↦ unwrap_or (first_word s) "unknown"
  ]
]

abbrev checksum_of : Bool → String → String → String → ℕ → ChecksumResult
checksum_of matches expected actual url download_ms = record {
  matches = matches;
  expected = expected;
  actual = actual;
  url = url;
  download_ms = download_ms;
  size_bytes = 0;
}

unfoldable pub parse_checksum_result :
    String → ℤ → String → Option String → ℕ → Option ChecksumResult
parse_checksum_result stderr exit_code url none download_ms = none
parse_checksum_result stderr exit_code url (some expected) download_ms =
    if is_nat exit_code 99 && contains stderr "CHECKSUM_MISMATCH"
    then some (checksum_of false expected (actual_of_mismatch stderr) url download_ms)
    else if is_nat exit_code 0 || contains stderr "CHECKSUM_OK"
    then some (
        checksum_of true expected
          (unwrap_or
            (map_option trim (find_map_line (λ l. strip_prefix l "CHECKSUM_OK ") (lines stderr)))
            expected)
          url download_ms)
    else none

-- What a check's command gives: exit code, standard output and standard error.
abbrev pub Answer : Type 0
Answer = Fallible (ℤ × String × String)

-- A stage of the checks: the result, the commands that ran, and whether `post_install` returned.
pub record Stage : Type 0 where
  pub result : TestResult
  pub commands : List String
  pub stopped : Bool

abbrev passing : TestResult → List String → Stage
passing r commands = record { result = r; commands = commands; stopped = false }

-- A check that exited with `code`, or (`none`) could not be run.
abbrev failing : TestResult → List String → Option ℤ → String → Stage
failing r commands code text = record {
  result = record r {
    status = failed;
    success = false;
    exit_code = elim code [ some c ↦ some c | none ↦ r.exit_code ];
    stderr = r.stderr ++ₛ text;
  };
  commands = commands;
  stopped = true;
}

-- The next stage, unless this one returned.
abbrev pub and_then : Stage → (TestResult → Stage) → Stage
and_then s next =
    let later = next s.result in
    if s.stopped then s else record later { commands = s.commands ++ later.commands }

-- What `expect_binary` does with the answer of `command -v`.
unfoldable pub on_binary : String → TestResult → String → Answer → Stage
on_binary bin r cmd (ok (code, out, e)) =
    if is_nat code 0
    then passing r (cmd ∷ [])
    else failing r (cmd ∷ []) (some code) (
        concat (
          "\n" ∷ post_install_marker ∷ ": expected binary '" ∷ bin ∷ "' not found on PATH\n" ∷ e
          ∷ []))
on_binary bin r cmd (err e) =
    failing r (cmd ∷ []) none
      (concat ("\n" ∷ post_install_marker ∷ ": expect_binary check error: " ∷ e ∷ []))

module _ (libs : Libs) where
  open libs use {replacer}

  -- What `verify_cmd` does with the answer of its command.
  unfoldable pub on_verify : TestResult → String → Answer → Stage
  on_verify r cmd (ok (code, out, e)) =
      if is_nat code 0
      then passing r (cmd ∷ [])
      else failing r (cmd ∷ []) (some code) (
          concat (
            "\n"
            ∷ post_install_marker
            ∷ ": verify_cmd exited "
            ∷ show_ℤ code
            ∷ "\n"
            ∷ redact replacer (tail out 1024)
            ∷ "\n"
            ∷ redact replacer (tail e 1024)
            ∷ []))
  on_verify r cmd (err e) =
      failing r (cmd ∷ []) none
        (concat ("\n" ∷ post_install_marker ∷ ": verify_cmd error: " ∷ e ∷ []))

  -- The first line that is not blank, trimmed and redacted.
  abbrev pub version_of : String → Option String
  version_of out =
      map_option (λ l. redact replacer (trim l))
        (find_line (λ l. not (is_empty (trim l))) (lines out))

  -- What `version_cmd` does with the answer of its command: a failure is ignored.
  unfoldable pub on_version : TestResult → String → Answer → Stage
  on_version r cmd (ok (code, out, e)) =
      if is_nat code 0
      then passing (record r { installed_version = version_of out }) (cmd ∷ [])
      else passing r (cmd ∷ [])
  on_version r cmd (err e) = passing r (cmd ∷ [])

  module _ (answer : String → Answer) where
    unfoldable pub check_binary : Option String → TestResult → Stage
    check_binary none r = passing r []
    check_binary (some bin) r =
        let cmd = "command -v " ++ₛ shell_quote bin in on_binary bin r cmd (answer cmd)

    unfoldable pub check_verify : Option String → TestResult → Stage
    check_verify none r = passing r []
    check_verify (some cmd) r = on_verify r cmd (answer cmd)

    unfoldable pub check_version : Option String → TestResult → Stage
    check_version none r = passing r []
    check_version (some cmd) r = on_version r cmd (answer cmd)

    unfoldable pub post_install : InstallerTest → TestResult → Stage
    post_install test r =
        and_then (and_then (check_binary test.expect_binary r) (check_verify test.verify_cmd))
          (check_version test.version_cmd)
