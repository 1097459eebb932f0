-- ===== src/Remediation/Propose/Session/Tests.antt =====
-- src/remediation/propose.rs: a session that edits, is verified, and is committed.
use text.Mathlib.Text.{find?}
use automated_flywheel_setup.Base.{
  String, ◌≡◌, ◌↔◌, refl, true, false, none, some, List, [], ◌∷◌, ◌++◌, ◌==ₛ◌, show, is_some, lines,
  trim, strip_prefix, if◌then◌else◌,
}
use automated_flywheel_setup.Classifier.{Engine}
use automated_flywheel_setup.Reporting.Redact.{
  Replacer, redact, redact_by, compiled_rules, apply_rule,
}
use automated_flywheel_setup.Remediation.Safety.{is_command_safe}
use automated_flywheel_setup.Remediation.Risks.{annotate_risks}
use automated_flywheel_setup.Remediation.Risks.Line.{IsMentioned}
use automated_flywheel_setup.Remediation.Risks.Mentioned.{annotate_risks-none_iff}
use automated_flywheel_setup.Remediation.Limiter.{Clock, try_acquire}
use automated_flywheel_setup.Remediation.Breaker.{should_allow}
use automated_flywheel_setup.Remediation.Claude.{Formats, plain_text, interpret_run}
use automated_flywheel_setup.Remediation.Claude.Client.{Config, ended, Answers, new_client}
use automated_flywheel_setup.Remediation.Propose.{output, Worktree}
use automated_flywheel_setup.Remediation.Propose.Gate.{Request, checked, opened, Outside}
use automated_flywheel_setup.Remediation.Propose.Session.{finished, remediate_with_claude}
use automated_flywheel_setup.Remediation.Outcome.{applied}
use automated_flywheel_setup.Remediation.Propose.Session.Gated.{
  IsGated, remediate_with_claude-IsGated,
}

abbrev engine : Engine
engine = record {
  compiles = λ p. true;
  is_match = λ p t. is_some (find? t p);
  find = λ p t. find? t p;
  is_match-find = λ p t. refl;
}

abbrev replacer : Replacer
replacer = record {
  compiles = λ p. true;
  is_match = λ p t. false;
  replace_all = λ p t m. t;
  replace_value = λ p t m. t;
  replace_all-no_match = λ p t m h. refl;
  replace_value-no_match = λ p t m h. refl;
}

abbrev formats : Formats
formats = record {
  envelope_of = λ s. if s ==ₛ "{done}" then some (plain_text "pinned the new hash") else none;
  dollars_2 = show;
  dollars_4 = show;
  debug_subtype = λ s. "None";
  booked = λ cost. cost;
}

abbrev clock : Clock
clock = record { tokens_for = λ elapsed rate. 0; wait_for = λ needed rate. some needed }

abbrev config : Config
config = record { enabled = true; cost_limit_usd = 3_000_000; max_turns = 8; max_retries = 3 }

abbrev answers : Answers
answers = record {
  allow_at = 0;
  times = record { started = 0; tried = λ round. 0; checked = λ round. 0 };
  rounds = 2;
  run = λ attempt. ended true "{done}" "";
  failed_at = λ attempt. 0;
  elapsed_ms = λ attempt. 10;
}

abbrev pinned : Worktree
pinned = record {
  add = output "";
  names = output "checksums.yaml\n";
  diff = output "@@ -3 +3 @@\n";
  text = "";
  file_diff = output "";
}

abbrev out : Outside
out = record {
  open_worktree = opened "afsc/remediate-x" "/tmp/w";
  prompt = λ previous. "fix it";
  answers = λ attempt. answers;
  worktree = λ attempt. pinned;
  verify = λ attempt.
      checked (record { passed = true; status = "passed"; exit_code = none; stderr_tail = "" });
  commit = output "abc123";
  push = output "";
  pr = none;
  display = λ e. "failed";
}

abbrev req : Request
req = record {
  installer = "x";
  category = "checksum_mismatch";
  apply = true;
  create_pr = false;
  max_attempts = 2;
  allow_bash = false;
}

remediate_with_claude-IsGated_example :
    IsGated engine req out
      (remediate_with_claude engine replacer formats config clock req out (new_client 0))
remediate_with_claude-IsGated_example =
    remediate_with_claude-IsGated engine replacer formats config clock req out (new_client 0)

abbrev fenced_advice : String
fenced_advice = "Run:\n```\nsudo rm -rf /\n```\n"

annotate_risks-none_iff_example : (annotate_risks engine fenced_advice ≡ []) ↔ (
    (before : List String) (line : String) (rest : List String) (command : String)
    → lines fenced_advice ≡ before ++ line ∷ rest
    → IsMentioned before line command
    → (is_command_safe engine command).safe ≡ true)
annotate_risks-none_iff_example = annotate_risks-none_iff engine fenced_advice

pinned_applied :
    (remediate_with_claude engine replacer formats config clock req out (new_client 0)).finish
    ≡ finished (applied "afsc/remediate-x" "abc123" none 0)
unfolding remediate_with_claude should_allow new_client try_acquire interpret_run trim lines redact
    redact_by compiled_rules apply_rule strip_prefix
pinned_applied = refl
