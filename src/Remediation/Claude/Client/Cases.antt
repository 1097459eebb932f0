-- ===== src/Remediation/Claude/Client/Cases.antt =====
-- src/remediation/claude.rs: the ways of a call up to the first attempt.
use automated_flywheel_setup.Base.{
  ◌<◌, String, ◌≡◌, refl, ◌⊎◌, inl, inr, true, false, leb, Bool-cases, arith,
}
use automated_flywheel_setup.Remediation.Breaker.{should_allow}
use automated_flywheel_setup.Remediation.Limiter.{Clock}
use automated_flywheel_setup.Remediation.Claude.{Formats, cost_limit_exceeded}
use automated_flywheel_setup.Remediation.Claude.Client.{
  Config, Client, Answers, Reply, Called, called, Acquired, acquired, timed_out, wait_panicked,
  still_waiting, acquire, try_attempts, check_cost, with_token, take_token, thirty_seconds,
  execute_with_resilience, ok, err, fallback_manual_instructions,
}

-- A call that ended before an attempt.
abbrev pub EndedEarly : Client → Called → Type 0
EndedEarly c r =
    (reply : Reply) × (left : Client) × (r ≡ called reply left)
    × (left.request_count ≡ c.request_count)
    × (left.total_cost_usd ≡ c.total_cost_usd)

module _ (f : Formats) (config : Config) (a : Answers) (prompt : String) where
  -- The guards hold, and the attempts were made on a client that differs in the limiter and the breaker.
  abbrev pub PassedGuards : Clock → Client → Called → Type 0
  PassedGuards clock c r =
      (start : Client) × (config.enabled ≡ true)
      × ((should_allow c.breaker a.allow_at).0 ≡ true)
      × ((acquire clock a.times thirty_seconds a.rounds c.limiter).0 ≡ acquired)
      × (c.total_cost_usd < config.cost_limit_usd)
      × (r ≡ try_attempts f config a prompt config.max_retries 0 start)
      × (start.request_count ≡ c.request_count)
      × (start.total_cost_usd ≡ c.total_cost_usd)
      × (start.breaker ≡ (should_allow c.breaker a.allow_at).1)

  check_cost-cases :
      (c : Client)
      → EndedEarly c (check_cost f config a prompt c)
        ⊎ ((c.total_cost_usd < config.cost_limit_usd)
            × (check_cost f config a prompt c
                ≡ try_attempts f config a prompt config.max_retries 0 c))
  unfolding check_cost
  check_cost-cases c = elim (Bool-cases (leb config.cost_limit_usd c.total_cost_usd)) [
    | inl over ↦ inl (
      err (cost_limit_exceeded c.total_cost_usd config.cost_limit_usd),
      c,
      simp over refl,
      refl,
      refl,
    )
    | inr under ↦ inr (ground arith, simp under refl)
  ]

  with_token-cases :
      (c : Client) (got : Acquired)
      → EndedEarly c (with_token f config a prompt c got)
        ⊎ ((got ≡ acquired)
            × (c.total_cost_usd < config.cost_limit_usd)
            × (with_token f config a prompt c got
                ≡ try_attempts f config a prompt config.max_retries 0 c))
  unfolding with_token
  with_token-cases c acquired = elim (check_cost-cases c) [
    | inl early ↦ inl early
    | inr (under, made) ↦ inr (refl, under, made)
  ]
  with_token-cases c timed_out = inl (_, c, refl, refl, refl)
  with_token-cases c wait_panicked = inl (_, c, refl, refl, refl)
  with_token-cases c still_waiting = inl (_, c, refl, refl, refl)

  pub execute_with_resilience-cases :
      (clock : Clock) (c : Client)
      → EndedEarly c (execute_with_resilience f config a prompt clock c)
        ⊎ PassedGuards clock c (execute_with_resilience f config a prompt clock c)
  unfolding execute_with_resilience take_token
  execute_with_resilience-cases clock c = elim (Bool-cases config.enabled) [
    | inr off ↦ inl (ok (fallback_manual_instructions prompt), c, simp off refl, refl, refl)
    | inl on ↦ elim (Bool-cases (should_allow c.breaker a.allow_at).0) [
      | inr refused ↦ inl (
        ok (fallback_manual_instructions prompt),
        record c { breaker = (should_allow c.breaker a.allow_at).1 },
        simp (on, refused) refl,
        refl,
        refl,
      )
      | inl allowed ↦
          let taken = acquire clock a.times thirty_seconds a.rounds c.limiter in
          let start : Client = record c {
            breaker = (should_allow c.breaker a.allow_at).1;
            limiter = taken.1;
          } in
          elim (with_token-cases start taken.0) [
            | inl (reply, left, e, p, q) ↦ inl (reply, left, simp (on, allowed) e, p, q)
            | inr (got, under, made) ↦
                inr (start, on, allowed, got, under, simp (on, allowed) made, refl, refl, refl)
          ]
    ]
  ]

  -- The client at the first attempt.
  abbrev pub at_start : Clock → Client → Client
  at_start clock c = record c {
    breaker = (should_allow c.breaker a.allow_at).1;
    limiter = (acquire clock a.times thirty_seconds a.rounds c.limiter).1;
  }

  pub execute_with_resilience-passed :
      (clock : Clock) (c : Client)
      → config.enabled ≡ true
      → (should_allow c.breaker a.allow_at).0 ≡ true
      → (acquire clock a.times thirty_seconds a.rounds c.limiter).0 ≡ acquired
      → c.total_cost_usd < config.cost_limit_usd
      → execute_with_resilience f config a prompt clock c
        ≡ try_attempts f config a prompt config.max_retries 0 (at_start clock c)
  unfolding execute_with_resilience take_token with_token check_cost
  execute_with_resilience-passed clock c on allowed got under =
      let free : leb config.cost_limit_usd c.total_cost_usd ≡ false = ground arith in
      simp (on, allowed, got, free) refl

  -- While the circuit refuses, a call does nothing and answers with the manual instructions.
  pub execute_with_resilience-refused :
      (clock : Clock) (c : Client)
      → should_allow c.breaker a.allow_at ≡ (false, c.breaker)
      → execute_with_resilience f config a prompt clock c
        ≡ called (ok (fallback_manual_instructions prompt)) c
  unfolding execute_with_resilience
  execute_with_resilience-refused clock c refused = elim (Bool-cases config.enabled) [
    | inl on ↦ simp (on, refused) refl
    | inr off ↦ simp off refl
  ]
