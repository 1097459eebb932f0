-- ===== src/Remediation/Propose/Session/Gates.antt =====
-- src/remediation/propose.rs: what a session whose gates let it pass has shown.
use automated_flywheel_setup.Base.{
  ℕ, zero, suc, ◌+◌, ◌≤◌, ◌<◌, String, ◌≡◌, ◌≢◌, refl, sym, ap, ◌∙◌, Bool, true, false, Option,
  some, List, [], ◌∷◌, All, Bool-cases, inl, inr, arith,
}
use automated_flywheel_setup.Classifier.{Engine}
use automated_flywheel_setup.Reporting.Redact.{Replacer, redact}
use automated_flywheel_setup.Remediation.Outcome.{RiskNote}
use automated_flywheel_setup.Remediation.Risks.{annotate_risks}
use automated_flywheel_setup.Remediation.Limiter.{Clock}
use automated_flywheel_setup.Remediation.Claude.{Formats}
use automated_flywheel_setup.Remediation.Claude.Client.{
  Config, Client, Reply, ok, err, panicked, pending,
}
use automated_flywheel_setup.Remediation.Claude.Client.Edit.{execute_edit_session}
use automated_flywheel_setup.Remediation.Propose.{Inspected, inspected, not_inspected, check_policy}
use automated_flywheel_setup.Remediation.Propose.Gate.{
  Request, Verified, checked, not_checked, Outside, Act, added_worktree, asked_claude, discarded,
  committed, tried_push, tried_pr, Verdict, stop, pass, retry, crash, has_any, after_verify,
  after_policy, after_risks, after_reply,
}
use automated_flywheel_setup.Remediation.Propose.Session.{Looped, behind_ask, go_on, sessions}

-- The installer passed when it was run against the worktree.
abbrev pub HasPassed : Verified → Type 0
HasPassed (not_checked _) = ⊥
HasPassed (checked v) = v.passed ≡ true

-- The policy gave a verdict without violations, and something was changed.
abbrev pub IsClean : Inspected → Type 0
IsClean (not_inspected _) = ⊥
IsClean (inspected v) = (v.violations ≡ []) × (v.changed ≢ [])

-- The session of a number passed all its gates, with a summary.
abbrev pub PassedGates : Engine → Outside → ℕ → String → Type 0
PassedGates engine out k summary =
    (annotate_risks engine summary ≡ [])
    × IsClean (check_policy (out.worktree k))
    × HasPassed (out.verify k)

after_verify-pass :
    (summary passed_with : String) (verified : Verified)
    → after_verify summary verified ≡ pass passed_with
    → (summary ≡ passed_with) × HasPassed verified
unfolding after_verify
after_verify-pass summary p (not_checked e) h = absurd (cc)
after_verify-pass summary p (checked v) h = elim (Bool-cases v.passed) [
  | inl good ↦ let e = simp good at h in (cc, good)
  | inr bad ↦ let e = simp bad at h in absurd (cc)
]

has_any-false : (xs : List String) → has_any xs ≡ false → xs ≡ []
has_any-false [] h = refl
has_any-false (x ∷ xs) h = absurd (cc)

has_any-true : (xs : List String) → has_any xs ≡ true → xs ≢ []
has_any-true [] h e = cc
has_any-true (x ∷ xs) h e = cc

after_policy-pass :
    (summary passed_with : String) (verified : Verified) (found : Inspected)
    → after_policy summary verified found ≡ pass passed_with
    → (summary ≡ passed_with) × IsClean found × HasPassed verified
unfolding after_policy
after_policy-pass summary p verified (not_inspected e) h = absurd (cc)
after_policy-pass summary p verified (inspected v) h = elim (Bool-cases (has_any v.violations)) [
  | inl violated ↦ let e = simp violated at h in absurd (cc)
  | inr clean ↦ elim (Bool-cases (has_any v.changed)) [
    | inr unchanged ↦ let e = simp (clean, unchanged) at h in absurd (cc)
    | inl changed ↦
        let (same, passed) = after_verify-pass summary p verified (simp (clean, changed) at h) in
        (same, (has_any-false v.violations clean, has_any-true v.changed changed), passed)
  ]
]

after_risks-pass :
    (summary passed_with : String) (verified : Verified) (found : Inspected) (risks : List RiskNote)
    → after_risks summary verified found risks ≡ pass passed_with
    → (summary ≡ passed_with) × (risks ≡ []) × IsClean found × HasPassed verified
unfolding after_risks
after_risks-pass summary p verified found [] h =
    let (same, clean, passed) = after_policy-pass summary p verified found h in
    (same, refl, clean, passed)
after_risks-pass summary p verified found (r ∷ risks) h = absurd (cc)

module _ (engine : Engine) (replacer : Replacer) (out : Outside) where
  after_reply-pass :
      (k : ℕ) (reply : Reply) (summary : String)
      → after_reply engine replacer out k reply ≡ pass summary
      → PassedGates engine out k summary
  unfolding after_reply
  after_reply-pass k (err e) summary h = absurd (cc)
  after_reply-pass k panicked summary h = absurd (cc)
  after_reply-pass k pending summary h = absurd (cc)
  after_reply-pass k (ok res) summary h =
      let told = redact replacer res.claude_output in
      let (same, safe, clean, passed) =
        after_risks-pass told summary (out.verify k) (check_policy (out.worktree k))
          (annotate_risks engine told) h in
      (ap (annotate_risks engine) (sym same) ∙ safe, clean, passed)

-- Acts that neither commit nor publish.
abbrev pub is_quiet : Act → Bool
is_quiet added_worktree = true
is_quiet (asked_claude _) = true
is_quiet discarded = true
is_quiet (committed _) = false
is_quiet tried_push = false
is_quiet tried_pr = false

abbrev pub IsQuiet : Act → Type 0
IsQuiet a = is_quiet a ≡ true

-- What the loop gives: a session in the range that passed its gates, where it says so, and no acts
-- that commit or publish.
pub record IsLooped (engine : Engine) (out : Outside) (attempt left : ℕ) (l : Looped) : Type 0 where
  pub passed :
      (summary : String)
      → l.verdict ≡ pass summary
      → (k : ℕ) × (attempt ≤ k) × (k < attempt + left) × PassedGates engine out k summary
  pub asks : All IsQuiet l.acts

module _ (engine : Engine) (out : Outside) (attempt left : ℕ) where
  go_on-IsLooped :
      (again : String → Looped) (c : Client) (v : Verdict)
      → ((summary : String) → v ≡ pass summary → PassedGates engine out attempt summary)
      → ((text : String) → IsLooped engine out (suc attempt) left (again text))
      → IsLooped engine out attempt (suc left) (behind_ask attempt (go_on again c v))
  go_on-IsLooped again c (stop reason) gates later = record {
    passed = λ s h. absurd (cc);
    asks = (refl, tt);
  }
  go_on-IsLooped again c crash gates later = record {
    passed = λ s h. absurd (cc);
    asks = (refl, tt);
  }
  go_on-IsLooped again c (pass summary) gates later = record {
    passed = λ s h. (attempt, omega arith, omega arith, gates s h);
    asks = (refl, tt);
  }
  go_on-IsLooped again c (retry text) gates later = record {
    passed = λ s h.
        let (k, low, high, gates_k) = (later text).passed s h in
        (k, omega (arith, low), omega (arith, high), gates_k);
    asks = (refl, (later text).asks);
  }

module _ (engine : Engine) (replacer : Replacer) (f : Formats) (config : Config) (clock : Clock)
    (req : Request) (out : Outside) where
  pub sessions-IsLooped :
      (worktree : String) (left attempt : ℕ) (previous : Option String) (c : Client)
      → IsLooped engine out attempt left
          (sessions engine replacer f config clock req out worktree left attempt previous c)
  unfolding sessions
  sessions-IsLooped worktree zero attempt previous c = record {
    passed = λ s h. absurd (cc);
    asks = tt;
  }
  sessions-IsLooped worktree (suc left) attempt previous c =
      let called =
        execute_edit_session f config (out.prompt previous) worktree req.allow_bash clock
          (out.answers attempt) c in
      go_on-IsLooped engine out attempt left
        (λ text.
          sessions engine replacer f config clock req out worktree left (suc attempt) (some text)
            called.client)
        called.client (after_reply engine replacer out attempt called.reply)
        (after_reply-pass engine replacer out attempt called.reply)
        (λ text. sessions-IsLooped worktree left (suc attempt) (some text) called.client)
