-- ===== src/Remediation/Claude/Client/Edit.antt =====
-- src/remediation/claude.rs: `execute_edit_session`, one run that may edit, without retries.
use automated_flywheel_setup.Base.{
  ℕ, String, ◌≡◌, refl, ◌∙◌, ap, Bool, true, false, not, List, [], ◌∷◌, All, leb, Bool-cases, inl,
  inr, if◌then◌else◌,
}
use automated_flywheel_setup.Remediation.Breaker.{closed, should_allow}
use automated_flywheel_setup.Remediation.Limiter.{Clock}
use automated_flywheel_setup.Remediation.Claude.{
  Formats, RemediationError, claude_unavailable, api_error, timeout, rate_limited,
  cost_limit_exceeded, Interpreted, envelope, failed_run, interpret_run, edit_args,
}
use automated_flywheel_setup.Remediation.Claude.Client.{
  Config, Client, Run, Answers, ran_cli, ok, err, panicked, pending, Called, called, behind,
  Acquired, acquired, timed_out, wait_panicked, still_waiting, acquire, add_cost, count_request,
  result_of, remaining_budget, ran_too_long, not_started, ended, note_failure, note_success,
  thirty_seconds,
}
use automated_flywheel_setup.Remediation.Claude.Client.Retries.{IsSilent, should_allow-closed}

-- The errors of an answered run that count as failures of the service.
unfoldable pub counts_in_session : RemediationError → Bool
counts_in_session (claude_unavailable _) = true
counts_in_session (api_error _) = true
counts_in_session _ = false

-- The match on `interpret_run`.
unfoldable pub settle_session : Formats → Interpreted → ℕ → ℕ → Client → Called
unfolding add_cost counts_in_session
settle_session f (envelope e) failed_at ms c =
    called (ok (result_of e ms)) (note_success (add_cost f e.total_cost_usd c))
settle_session f (failed_run e cost) failed_at ms c =
    called (err e) (note_failure (counts_in_session e) failed_at (add_cost f cost c))

-- What `output` gave: its own errors are returned by `?`, before the match.
unfoldable pub end_session : Formats → Run → ℕ → ℕ → Client → Called
unfolding settle_session
end_session f ran_too_long failed_at ms c = called (err timeout) c
end_session f (not_started e) failed_at ms c = called (err (claude_unavailable e)) c
end_session f (ended status_ok stdout stderr) failed_at ms c =
    settle_session f (interpret_run f status_ok stdout stderr) failed_at ms c

module _ (f : Formats) (config : Config) (prompt worktree : String) (allow_bash : Bool)
    (clock : Clock) where
  unfoldable pub run_session : Answers → Client → Called
  unfolding count_request remaining_budget end_session
  run_session a c =
      let args =
        edit_args f config.max_turns (remaining_budget config c) worktree allow_bash prompt in
      if leb config.cost_limit_usd c.total_cost_usd
      then called (err (cost_limit_exceeded c.total_cost_usd config.cost_limit_usd)) c
      else behind (ran_cli args ∷ [])
          (end_session f (a.run 0) (a.failed_at 0) (a.elapsed_ms 0) (count_request c))

  unfoldable pub session_with_token : Answers → Client → Acquired → Called
  unfolding run_session
  session_with_token a c acquired = run_session a c
  session_with_token a c timed_out = called (err (rate_limited "Rate limit timeout exceeded")) c
  session_with_token a c wait_panicked = called panicked c
  session_with_token a c still_waiting = called pending c

  unfoldable pub session_token : Answers → Client → Called
  unfolding acquire session_with_token
  session_token a c =
      let (got, limiter) = acquire clock a.times thirty_seconds a.rounds c.limiter in
      session_with_token a (record c { limiter = limiter }) got

  -- `execute_edit_session`
  unfoldable pub execute_edit_session : Answers → Client → Called
  unfolding session_token
  execute_edit_session a c =
      let (allowed, breaker) = should_allow c.breaker a.allow_at in
      if not config.enabled
      then called (err (claude_unavailable "remediation disabled")) c
      else if not allowed
      then called (err (claude_unavailable "circuit breaker open")) (record c { breaker = breaker })
      else session_token a (record c { breaker = breaker })

  -- Sessions one behind the other.
  unfoldable pub execute_sessions : List Answers → Client → Client
  unfolding execute_edit_session
  execute_sessions [] c = c
  execute_sessions (a ∷ answers) c = execute_sessions answers (execute_edit_session a c).client

  run_session-silent :
      (a : Answers) (c : Client) → IsSilent (a.run 0) → (run_session a c).client.breaker ≡ c.breaker
  unfolding run_session
  run_session-silent a c h = elim (Bool-cases (leb config.cost_limit_usd c.total_cost_usd)) [
    | inl over ↦ simp over refl
    | inr under ↦ simp under (go (a.run 0) h)
  ]
    where
      go :
          (run : Run)
          → IsSilent run
          → (end_session f run (a.failed_at 0) (a.elapsed_ms 0) (count_request c)).client.breaker
            ≡ c.breaker
      go ran_too_long h = unfold end_session count_request in refl
      go (not_started e) h = unfold end_session count_request in refl
      go (ended _ _ _) h = absurd h

  session_with_token-silent :
      (a : Answers) (c : Client) (got : Acquired)
      → IsSilent (a.run 0)
      → (session_with_token a c got).client.breaker ≡ c.breaker
  unfolding session_with_token
  session_with_token-silent a c acquired h = run_session-silent a c h
  session_with_token-silent a c timed_out h = refl
  session_with_token-silent a c wait_panicked h = refl
  session_with_token-silent a c still_waiting h = refl

  execute_edit_session-silent :
      (a : Answers) (c : Client)
      → c.breaker.state ≡ closed
      → IsSilent (a.run 0)
      → (execute_edit_session a c).client.breaker ≡ c.breaker
  unfolding execute_edit_session session_token
  execute_edit_session-silent a c h silent =
      let allowed = should_allow-closed c.breaker a.allow_at h in
      elim (Bool-cases config.enabled) [
        | inr off ↦ simp off refl
        | inl on ↦
            simp (on, allowed)
              (session_with_token-silent a
                (record c { limiter = (acquire clock a.times thirty_seconds a.rounds c.limiter).1 })
                (acquire clock a.times thirty_seconds a.rounds c.limiter).0 silent)
      ]

  -- However many edit sessions get no answer from the CLI, because it does not start or runs into its
  -- timeout, a closed circuit stays as it is: none of them counts as a failure.
  pub execute_sessions-silent :
      (answers : List Answers) (c : Client)
      → c.breaker.state ≡ closed
      → All (λ a. IsSilent (a.run 0)) answers
      → (execute_sessions answers c).breaker ≡ c.breaker
  unfolding execute_sessions
  execute_sessions-silent [] c h silent = refl
  execute_sessions-silent (a ∷ answers) c h (here, later) =
      let kept = execute_edit_session-silent a c h here in
      execute_sessions-silent answers (execute_edit_session a c).client (ap (λ b. b.state) kept ∙ h)
        later
      ∙ kept
