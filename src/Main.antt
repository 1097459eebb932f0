-- ===== src/Main.antt =====
-- src/main.rs: the exit code of a check run, from its results.
use automated_flywheel_setup.Base.{ℕ, Bool, true, false, not, ◌&&◌, Option, none, some, List, any}
use automated_flywheel_setup.Exit.{Signal, interrupt, terminate}
use automated_flywheel_setup.Runner.Installer.{TestResult, failed, timed_out, cancelled}

-- `is_failure`
abbrev pub is_failure : TestResult → Bool
is_failure r = elim r.status [ failed ↦ true | timed_out ↦ true | cancelled ↦ true | _ ↦ false ]

abbrev pub is_cancelled : TestResult → Bool
is_cancelled r = elim r.status [ cancelled ↦ true | _ ↦ false ]

-- `any_failed`: results that the deadline cancelled do not count.
unfoldable pub any_failed : Bool → Bool → List TestResult → Bool
any_failed deadline_exceeded signalled results =
    any (λ r. is_failure r && not (deadline_exceeded && not signalled && is_cancelled r)) results

-- `exit_code`
unfoldable pub exit_code_of : Option Signal → Bool → ℕ
exit_code_of (some interrupt) _ = 130
exit_code_of (some terminate) _ = 143
exit_code_of none true = 1
exit_code_of none false = 0
