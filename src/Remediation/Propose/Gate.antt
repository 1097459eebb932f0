-- ===== src/Remediation/Propose/Gate.antt =====
-- src/remediation/propose.rs: the gates of an edit session. What git, the disk, the executor and Claude
-- answer is a record, by the attempt where they are asked in each.
use automated_flywheel_setup.Base.{
  ℕ, String, Bool, true, false, not, Option, none, some, List, [], ◌∷◌, concat, lines, trim,
  is_empty, map, show, show_ℤ, take_chars, if◌then◌else◌,
}
use automated_flywheel_setup.Base.Int.{ℤ}
use automated_flywheel_setup.Classifier.{Engine}
use automated_flywheel_setup.Reporting.Redact.{Replacer, redact}
use automated_flywheel_setup.Remediation.Outcome.{RiskNote}
use automated_flywheel_setup.Remediation.Risks.{annotate_risks}
use automated_flywheel_setup.Remediation.Claude.{RemediationError, join_with}
use automated_flywheel_setup.Remediation.Claude.Client.{Answers, Reply, ok, err, panicked, pending}
use automated_flywheel_setup.Remediation.Propose.{
  Git, Worktree, Inspected, inspected, not_inspected, check_policy,
}

-- `ClaudeEditRequest`, without what only the executor reads.
pub record Request : Type 0 where
  pub installer : String
  pub category : String
  pub apply : Bool
  pub create_pr : Bool
  pub max_attempts : ℕ
  pub allow_bash : Bool

pub record Verification : Type 0 where
  pub passed : Bool
  pub status : String
  pub exit_code : Option ℤ
  pub stderr_tail : String

-- `Result` of `verify_in_worktree`
pub data Verified : Type 0 where
  checked : Verification → Verified
  not_checked : String → Verified

-- `Result<EditSession>` of `open_worktree`
pub data Opened : Type 0 where
  opened : (branch worktree : String) → Opened
  not_opened : String → Opened

-- `prompt` is `generate_edit_prompt`, by what still fails; `display` prints an error.
pub record Outside : Type 0 where
  pub open_worktree : Opened
  pub prompt : Option String → String
  pub answers : ℕ → Answers
  pub worktree : ℕ → Worktree
  pub verify : ℕ → Verified
  pub commit : Git
  pub push : Git
  pub pr : Option String
  pub display : RemediationError → String

pub data Act : Type 0 where
  added_worktree : Act
  asked_claude : (attempt : ℕ) → Act
  discarded : Act
  committed : (message : String) → Act
  tried_push : Act
  tried_pr : Act

-- What a session's gates decide: to end with a reason, to commit, to try again with what still fails, or
-- that the client itself panicked or waits.
pub data Verdict : Type 0 where
  stop : String → Verdict
  pass : (summary : String) → Verdict
  retry : (previous : String) → Verdict
  crash : Verdict

-- `{:?}` of an exit code
unfoldable pub debug_exit : Option ℤ → String
debug_exit none = "None"
debug_exit (some code) = concat ("Some(" ∷ show_ℤ code ∷ ")" ∷ [])

unfoldable pub first_text : List String → String
first_text [] = ""
first_text (line ∷ rest) =
    let later = first_text rest in if is_empty (trim line) then later else trim line

-- `first_line`
unfoldable pub first_line : String → String
unfolding first_text
first_line s = take_chars 200 (first_text (lines s))

abbrev pub risk_text : RiskNote → String
risk_text r = concat (r.command ∷ " [" ∷ r.risk ∷ "]" ∷ [])

-- The installer's run against the worktree.
unfoldable pub after_verify : String → Verified → Verdict
unfolding debug_exit
after_verify summary (not_checked e) = retry e
after_verify summary (checked v) =
    if v.passed
    then pass summary
    else retry (
        concat
          ("status " ∷ v.status ∷ " (exit " ∷ debug_exit v.exit_code ∷ ")\n" ∷ v.stderr_tail ∷ []))

abbrev pub has_any : List String → Bool
has_any [] = false
has_any (_ ∷ _) = true

-- The policy, and what stands behind it.
unfoldable pub after_policy : String → Verified → Inspected → Verdict
unfolding after_verify first_line join_with
after_policy summary verified (not_inspected e) =
    stop (concat ("inspecting the worktree: " ∷ e ∷ []))
after_policy summary verified (inspected v) =
    if has_any v.violations
    then stop (concat ("edit policy violated: " ∷ join_with "; " v.violations ∷ []))
    else if not (has_any v.changed)
    then stop (concat ("Claude made no changes: " ∷ first_line summary ∷ []))
    else after_verify summary verified

-- The commands in the transcript, and what stands behind them.
unfoldable pub after_risks : String → Verified → Inspected → List RiskNote → Verdict
unfolding after_policy
after_risks summary verified found [] = after_policy summary verified found
after_risks summary verified found (r ∷ risks) = stop (
    concat
      ("unsafe command in Claude's transcript: " ∷ join_with "; " (map risk_text (r ∷ risks)) ∷ []))

module _ (engine : Engine) (replacer : Replacer) (out : Outside) where
  -- One session's reply, at the attempt.
  unfoldable pub after_reply : ℕ → Reply → Verdict
  unfolding after_risks annotate_risks check_policy
  after_reply attempt (err e) =
      stop (concat ("claude edit session (attempt " ∷ show attempt ∷ "): " ∷ out.display e ∷ []))
  after_reply attempt panicked = crash
  after_reply attempt pending = crash
  after_reply attempt (ok res) =
      let summary = redact replacer res.claude_output in
      after_risks summary (out.verify attempt) (check_policy (out.worktree attempt))
        (annotate_risks engine summary)
