-- ===== src/Remediation/Propose/Session/Gated.antt =====
-- src/remediation/propose.rs: nothing is committed that did not pass every gate, and nothing else stays.
use automated_flywheel_setup.Base.{
  ℕ, ◌≤◌, ◌<◌, String, ◌≡◌, ◌⊎◌, refl, ap, ◌∙◌, Bool, true, false, none, List, [], ◌∷◌, ◌++◌, All,
  All-append, Among, max, Bool-cases, inl, inr, arith,
}
use automated_flywheel_setup.Classifier.{Engine}
use automated_flywheel_setup.Reporting.Redact.{Replacer}
use automated_flywheel_setup.Remediation.Outcome.{Usd}
use automated_flywheel_setup.Remediation.Limiter.{Clock}
use automated_flywheel_setup.Remediation.Claude.{Formats}
use automated_flywheel_setup.Remediation.Claude.Client.{Config, Client}
use automated_flywheel_setup.Remediation.Propose.{Git, output, git_failed}
use automated_flywheel_setup.Remediation.Propose.Gate.{
  Request, Opened, opened, not_opened, Outside, Act, added_worktree, discarded, committed,
  tried_push, tried_pr, Verdict, stop, pass, retry, crash,
}
use automated_flywheel_setup.Remediation.Propose.Session.{
  Looped, sessions, crashed, Remediated, message_of, pr_acts, publish, gave_up, after_pass,
  after_loop, in_worktree, remediate_with_claude,
}
use automated_flywheel_setup.Remediation.Propose.Session.Gates.{
  PassedGates, is_quiet, IsQuiet, IsLooped, sessions-IsLooped,
}

-- The acts end with the worktree's removal.
abbrev pub EndsDiscarded : List Act → Type 0
EndsDiscarded acts = (before : List Act) × (acts ≡ before ++ discarded ∷ [])

-- What is left of a run: nothing was added, or the worktree is removed, or a commit was made, or the
-- client itself panicked or waits.
abbrev pub IsSettled : Remediated → Type 0
IsSettled r =
    (r.acts ≡ [])
    ⊎ (EndsDiscarded r.acts
        ⊎ (((message : String) × Among (committed message) r.acts) ⊎ (r.finish ≡ crashed)))

-- What the acts of a run say.
pub record IsGated (engine : Engine) (req : Request) (out : Outside) (r : Remediated) : Type 0 where
  pub gated :
      (message : String)
      → Among (committed message) r.acts
      → (k : ℕ) × (summary : String) × (0 < k)
        × (k ≤ max req.max_attempts 1)
        × (message ≡ message_of req summary)
        × PassedGates engine out k summary
  pub settled : IsSettled r
  pub pushed : Among tried_push r.acts → req.apply ≡ true
  pub asked_pr : Among tried_pr r.acts → req.create_pr ≡ true

-- Members of lists of acts.
Among-split : (a : Act) (xs ys : List Act) → Among a (xs ++ ys) → Among a xs ⊎ Among a ys
Among-split a [] ys h = inr h
Among-split a (x ∷ xs) ys (inl e) = inl (inl e)
Among-split a (x ∷ xs) ys (inr h) = elim (Among-split a xs ys h) [
  | inl here ↦ inl (inr here)
  | inr there ↦ inr there
]

Among-last : (a : Act) (xs ys : List Act) → Among a (xs ++ a ∷ ys)
Among-last a [] ys = inl refl
Among-last a (x ∷ xs) ys = inr (Among-last a xs ys)

IsQuiet-only : (a : Act) (xs : List Act) → All IsQuiet xs → Among a xs → IsQuiet a
IsQuiet-only a [] h m = absurd m
IsQuiet-only a (x ∷ xs) (here, later) (inl e) = ap is_quiet e ∙ here
IsQuiet-only a (x ∷ xs) (here, later) (inr h) = IsQuiet-only a xs later h

module _ (engine : Engine) (req : Request) (out : Outside) where
  -- A run all of whose acts are quiet.
  quiet-IsGated : (r : Remediated) → All IsQuiet r.acts → IsSettled r → IsGated engine req out r
  quiet-IsGated r quiet settled = record {
    gated = λ message h. absurd (cc (IsQuiet-only (committed message) r.acts quiet h));
    settled = settled;
    pushed = λ h. absurd (cc (IsQuiet-only tried_push r.acts quiet h));
    asked_pr = λ h. absurd (cc (IsQuiet-only tried_pr r.acts quiet h));
  }

  gave_up-IsGated :
      (reason : String) (spent : Usd) (acts : List Act) (c : Client)
      → All IsQuiet acts
      → IsGated engine req out (gave_up reason spent acts c)
  gave_up-IsGated reason spent acts c quiet =
      quiet-IsGated (gave_up reason spent acts c)
        (All-append IsQuiet acts (discarded ∷ []) quiet (refl, tt)) (inr (inl (acts, refl)))

pr_acts-acts :
    (req : Request) (a : Act) → Among a (pr_acts req) → (a ≡ tried_pr) × (req.create_pr ≡ true)
pr_acts-acts req a h = elim (Bool-cases req.create_pr) [
  | inl asked ↦ elim (simp asked at h) [ inl e ↦ (e, asked) | inr e ↦ absurd e ]
  | inr unasked ↦ absurd (simp unasked at h)
]

-- The acts behind a commit.
publish-acts :
    (req : Request) (out : Outside) (branch sha : String) (spent : Usd) (apply : Bool) (push : Git)
    (a : Act)
    → Among a (publish req out branch sha spent apply push).1
    → ((a ≡ tried_push) × (apply ≡ true)) ⊎ ((a ≡ tried_pr) × (req.create_pr ≡ true))
unfolding publish
publish-acts req out branch sha spent false push a h = inr (pr_acts-acts req a h)
publish-acts req out branch sha spent true (output _) a (inl e) = inl (e, refl)
publish-acts req out branch sha spent true (output _) a (inr h) = inr (pr_acts-acts req a h)
publish-acts req out branch sha spent true (git_failed _) a (inl e) = inl (e, refl)
publish-acts req out branch sha spent true (git_failed _) a (inr h) = absurd h

module _ (engine : Engine) (req : Request) (out : Outside) where
  -- A commit behind quiet acts, of a session that passed its gates.
  committed-IsGated :
      (r : Remediated) (branch sha summary : String) (spent : Usd) (acts : List Act) (k : ℕ)
      → r.acts
        ≡ acts
          ++ committed (message_of req summary)
            ∷ (publish req out branch sha spent req.apply out.push).1
      → All IsQuiet acts
      → 0 < k
      → k ≤ max req.max_attempts 1
      → PassedGates engine out k summary
      → IsGated engine req out r
  committed-IsGated r branch sha summary spent acts k shape quiet low high gates = record {
    gated = λ message h. (k, summary, low, high, message_is message h, gates);
    settled = inr (
        inr (
          inl (
            message_of req summary,
            rw shape (Among-last (committed (message_of req summary)) acts later),
          )));
    pushed = λ h. elim (behind_commit tried_push h (λ e. absurd (cc)) (λ q. absurd (cc))) [
      | inl (_, on) ↦ on
      | inr (e, _) ↦ absurd (cc)
    ];
    asked_pr = λ h. elim (behind_commit tried_pr h (λ e. absurd (cc)) (λ q. absurd (cc))) [
      | inl (e, _) ↦ absurd (cc)
      | inr (_, on) ↦ on
    ];
  }
    where
      later : List Act
      later = (publish req out branch sha spent req.apply out.push).1

      behind_commit :
          (a : Act)
          → Among a r.acts
          → (a ≡ committed (message_of req summary) → ⊥)
          → (IsQuiet a → ⊥)
          → ((a ≡ tried_push) × (req.apply ≡ true)) ⊎ ((a ≡ tried_pr) × (req.create_pr ≡ true))
      behind_commit a h other loud =
          elim (Among-split a acts (committed (message_of req summary) ∷ later) (rw shape at h)) [
            | inl before ↦ absurd (loud (IsQuiet-only a acts quiet before))
            | inr (inl e) ↦ absurd (other e)
            | inr (inr h') ↦ publish-acts req out branch sha spent req.apply out.push a h'
          ]

      message_is :
          (message : String) → Among (committed message) r.acts → message ≡ message_of req summary
      message_is message h =
          elim (Among-split (committed message) acts (committed (message_of req summary) ∷ later)
            (rw shape at h)) [
              | inl before ↦ absurd (cc (IsQuiet-only (committed message) acts quiet before))
              | inr (inl e) ↦ cc
              | inr (inr h') ↦
                  elim (publish-acts req out branch sha spent req.apply out.push (committed message)
                    h') [ inl (e, _) ↦ absurd (cc) | inr (e, _) ↦ absurd (cc) ]
            ]

module _ (engine : Engine) (req : Request) (out : Outside) where
  after_pass-IsGated :
      (branch summary : String) (spent : Usd) (acts : List Act) (c : Client) (commit : Git) (k : ℕ)
      → All IsQuiet acts
      → 0 < k
      → k ≤ max req.max_attempts 1
      → PassedGates engine out k summary
      → IsGated engine req out (after_pass req out branch summary spent acts c commit)
  unfolding after_pass
  after_pass-IsGated branch summary spent acts c (git_failed e) k quiet low high gates =
      gave_up-IsGated engine req out _ spent acts c quiet
  after_pass-IsGated branch summary spent acts c (output sha) k quiet low high gates =
      committed-IsGated engine req out _ branch sha summary spent acts k refl quiet low high gates

  after_loop-IsGated :
      (branch : String) (spent : Usd) (l : Looped) (v : Verdict)
      → l.verdict ≡ v
      → IsLooped engine out 1 (max req.max_attempts 1) l
      → IsGated engine req out (after_loop req out branch spent l v)
  unfolding after_loop
  after_loop-IsGated branch spent l (stop reason) e h =
      gave_up-IsGated engine req out reason spent (added_worktree ∷ l.acts) l.client (refl, h.asks)
  after_loop-IsGated branch spent l (retry text) e h =
      gave_up-IsGated engine req out text spent (added_worktree ∷ l.acts) l.client (refl, h.asks)
  after_loop-IsGated branch spent l crash e h =
      quiet-IsGated engine req out _ (refl, h.asks) (inr (inr (inr refl)))
  after_loop-IsGated branch spent l (pass summary) e h =
      let (k, low, high, gates) = h.passed summary e in
      after_pass-IsGated branch summary spent (added_worktree ∷ l.acts) l.client out.commit k
        (refl, h.asks) (omega (arith, low)) (omega (arith, high)) gates

module _ (engine : Engine) (replacer : Replacer) (f : Formats) (config : Config) (clock : Clock)
    (req : Request) (out : Outside) where
  -- Whatever git, Claude and the installer answer: a commit is made only after a session, of the
  -- attempts that the request allows, whose transcript mentions no unsafe command, whose changes are
  -- not empty and without violations of the policy, and in whose worktree the installer passed; its
  -- message has that session's summary; a push is tried only for `apply` and a pull request only if
  -- asked for; and a worktree that was added is removed at the end, unless a commit was made or the
  -- client itself panicked or waits.
  pub remediate_with_claude-IsGated :
      (c : Client)
      → IsGated engine req out (remediate_with_claude engine replacer f config clock req out c)
  unfolding remediate_with_claude
  remediate_with_claude-IsGated c = by_opened out.open_worktree
    where
      by_opened :
          (o : Opened)
          → IsGated engine req out (in_worktree engine replacer f config clock req out c o)
      by_opened (not_opened e) = quiet-IsGated engine req out _ tt (inl refl)
      by_opened (opened branch worktree) =
          let l =
            sessions engine replacer f config clock req out worktree (max req.max_attempts 1) 1 none
              c in
          after_loop-IsGated engine req out branch _ l l.verdict refl (
            sessions-IsLooped engine replacer f config clock req out worktree
              (max req.max_attempts 1) 1 none c)
