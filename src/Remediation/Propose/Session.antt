-- ===== src/Remediation/Propose/Session.antt =====
-- src/remediation/propose.rs: `remediate_with_claude`, edit sessions behind their gates. What the run does
-- to the outside is a list of acts.
pub mod Gates
pub mod Gated
mod Tests
use automated_flywheel_setup.Base.{
  ℕ, zero, suc, ◌+◌, ◌-◌, String, Bool, true, false, not, Option, none, some, List, [], ◌∷◌, ◌++◌,
  max, concat, lines, trim, is_empty, map, show, show_ℤ, unwrap_or, take_chars, if◌then◌else◌,
}
use automated_flywheel_setup.Base.Int.{ℤ}
use automated_flywheel_setup.Classifier.{Engine}
use automated_flywheel_setup.Reporting.Redact.{Replacer, redact}
use automated_flywheel_setup.Remediation.Outcome.{
  Usd, RiskNote, RemediationOutcome, failed, proposed, applied,
}
use automated_flywheel_setup.Remediation.Risks.{annotate_risks}
use automated_flywheel_setup.Remediation.Limiter.{Clock}
use automated_flywheel_setup.Remediation.Claude.{Formats, RemediationError, join_with}
use automated_flywheel_setup.Remediation.Claude.Client.{
  Config, Client, Answers, Reply, ok, err, panicked, pending, Called,
}
use automated_flywheel_setup.Remediation.Claude.Client.Edit.{execute_edit_session}
use automated_flywheel_setup.Remediation.Propose.{
  Git, output, git_failed, Worktree, PolicyVerdict, Inspected, inspected, not_inspected,
  check_policy,
}
use automated_flywheel_setup.Remediation.Propose.Gate.{
  Request, Opened, opened, not_opened, Outside, Act, added_worktree, asked_claude, discarded,
  committed, tried_push, tried_pr, Verdict, stop, pass, retry, crash, after_reply, first_line,
}

-- What the loop over the sessions gives; `previous` is what failed last.
pub record Looped : Type 0 where
  pub verdict : Verdict
  pub acts : List Act
  pub client : Client

abbrev pub behind_ask : ℕ → Looped → Looped
behind_ask attempt r = record r { acts = asked_claude attempt ∷ r.acts }

-- The next session, if another is to be made.
abbrev pub go_on : (String → Looped) → Client → Verdict → Looped
go_on again c (retry previous) = again previous
go_on again c v = record { verdict = v; acts = []; client = c }

abbrev pub last_line : Option String → String
last_line previous = unwrap_or previous "no verification result"

module _ (engine : Engine) (replacer : Replacer) (f : Formats) (config : Config) (clock : Clock)
    (req : Request) (out : Outside) where
  -- The loop: the sessions that are left, the number of the next, and what failed last.
  unfoldable pub sessions : String → ℕ → ℕ → Option String → Client → Looped
  unfolding after_reply execute_edit_session first_line
  sessions worktree zero attempt previous c = record {
    verdict = stop (
        concat (
          "installer still fails after "
          ∷ show (max req.max_attempts 1)
          ∷ " edit session(s): "
          ∷ first_line (last_line previous)
          ∷ []));
    acts = [];
    client = c;
  }
  sessions worktree (suc left) attempt previous c =
      let called =
        execute_edit_session f config (out.prompt previous) worktree req.allow_bash clock
          (out.answers attempt) c in
      let again =
        λ (text : String). sessions worktree left (suc attempt) (some text) called.client in
      behind_ask attempt
        (go_on again called.client (after_reply engine replacer out attempt called.reply))

-- How the whole ends: an outcome, or a panic or wait of the client's.
pub data Finish : Type 0 where
  finished : RemediationOutcome → Finish
  crashed : Finish

pub record Remediated : Type 0 where
  pub finish : Finish
  pub acts : List Act
  pub client : Client

abbrev pub title_of : Request → String
title_of req =
    concat ("fix(" ∷ req.installer ∷ "): remediate installer failure (" ∷ req.category ∷ ")" ∷ [])

-- The message of the commit.
unfoldable pub message_of : Request → String → String
message_of req summary = concat (
    title_of req
    ∷ "\n\n"
    ∷ summary
    ∷ "\n\nProposed by automated_flywheel_setup_checker: the installer was re-run against this branch and passed before the commit."
    ∷ [])

abbrev pub pr_of : Request → Option String → Option String
pr_of req url = if req.create_pr then url else none

abbrev pub pr_acts : Request → List Act
pr_acts req = if req.create_pr then tried_pr ∷ [] else []

-- The push of `apply` with git's answer, the pull request, and the outcome.
unfoldable pub publish :
    Request → Outside → String → String → Usd → Bool → Git → RemediationOutcome × List Act
publish req out branch sha spent false _ =
    (proposed branch (some sha) (pr_of req out.pr) spent, pr_acts req)
publish req out branch sha spent true (output _) =
    (applied branch sha (pr_of req out.pr) spent, tried_push ∷ pr_acts req)
publish req out branch sha spent true (git_failed e) = (
  failed (concat ("branch " ∷ branch ∷ " committed but push failed: " ∷ e ∷ [])) spent,
  tried_push ∷ [],
)

abbrev pub gave_up : String → Usd → List Act → Client → Remediated
gave_up reason spent acts c = record {
  finish = finished (failed reason spent);
  acts = acts ++ discarded ∷ [];
  client = c;
}

-- Behind a session that passed its gates.
unfoldable pub after_pass :
    Request → Outside → String → String → Usd → List Act → Client → Git → Remediated
unfolding message_of publish
after_pass req out branch summary spent acts c (git_failed e) =
    gave_up (concat ("commit: " ∷ e ∷ [])) spent acts c
after_pass req out branch summary spent acts c (output sha) =
    let (outcome, later) = publish req out branch sha spent req.apply out.push in
    record {
      finish = finished outcome;
      acts = acts ++ committed (message_of req summary) ∷ later;
      client = c;
    }

-- Behind the loop.
unfoldable pub after_loop : Request → Outside → String → Usd → Looped → Verdict → Remediated
unfolding after_pass
after_loop req out branch spent l (stop reason) =
    gave_up reason spent (added_worktree ∷ l.acts) l.client
after_loop req out branch spent l (retry previous) =
    gave_up previous spent (added_worktree ∷ l.acts) l.client
after_loop req out branch spent l crash = record {
  finish = crashed;
  acts = added_worktree ∷ l.acts;
  client = l.client;
}
after_loop req out branch spent l (pass summary) =
    after_pass req out branch summary spent (added_worktree ∷ l.acts) l.client out.commit

module _ (engine : Engine) (replacer : Replacer) (f : Formats) (config : Config) (clock : Clock)
    (req : Request) (out : Outside) where
  unfoldable pub in_worktree : Client → Opened → Remediated
  unfolding sessions after_loop
  in_worktree c (not_opened e) = record {
    finish = finished (failed (concat ("worktree: " ∷ e ∷ [])) 0);
    acts = [];
    client = c;
  }
  in_worktree c (opened branch worktree) =
      let l =
        sessions engine replacer f config clock req out worktree (max req.max_attempts 1) 1 none
          c in
      after_loop req out branch (l.client.total_cost_usd - c.total_cost_usd) l l.verdict

  -- `remediate_with_claude`
  unfoldable pub remediate_with_claude : Client → Remediated
  unfolding in_worktree
  remediate_with_claude c = in_worktree c out.open_worktree
