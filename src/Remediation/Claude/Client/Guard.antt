-- ===== src/Remediation/Claude/Client/Guard.antt =====
-- src/remediation/claude.rs: when the CLI runs, and how often.
use mathlib.Core.Path.{subst}
use automated_flywheel_setup.Base.{
  ℕ, zero, suc, ◌+◌, ◌%◌, ◌^◌, ◌≤◌, ◌<◌, String, ◌≡◌, refl, Bool, true, false, List, [], ◌∷◌, ◌++◌,
  inl, inr, ltb, Bool-cases, arith,
}
use automated_flywheel_setup.Remediation.Breaker.{should_allow}
use automated_flywheel_setup.Remediation.Limiter.{Clock}
use automated_flywheel_setup.Remediation.Claude.{
  Formats, RemediationError, claude_unavailable, api_error, claude_error, timeout, rate_limited,
  cost_limit_exceeded, parse_error, safety_check_failed, cap_reached, Interpreted, envelope,
  failed_run, interpret_run,
}
use automated_flywheel_setup.Remediation.Claude.Client.Cases.{execute_with_resilience-cases}
use automated_flywheel_setup.Remediation.Claude.Client.{
  Config, Client, Run, Answers, Effect, ran_cli, waited, Reply, ok, err, panicked, pending, Called,
  called, behind, acquired, acquire, add_cost, count_request, settle, after_reply, read_run,
  ran_too_long, not_started, ended, execute_claude_cli, is_cap, counts_as_failure, note_failure,
  note_success, wait_before, try_attempts, thirty_seconds, execute_with_resilience,
}

-- The runs of the CLI among the effects.
abbrev pub runs_in : List Effect → ℕ
runs_in [] = 0
runs_in (ran_cli _ ∷ es) = suc (runs_in es)
runs_in (waited _ ∷ es) = runs_in es

pub runs_in-wait_before :
    (attempt : ℕ) (args : List String) (es : List Effect)
    → runs_in ((wait_before attempt ++ ran_cli args ∷ []) ++ es) ≡ suc (runs_in es)
runs_in-wait_before attempt args es = elim (Bool-cases (ltb 0 attempt)) [
  | inl later ↦ simp later refl
  | inr first ↦ simp first refl
]

-- The error is not one of the CLI's caps and not the cost limit.
abbrev pub IsNoCap : RemediationError → Type 0
IsNoCap (cap_reached _) = ⊥
IsNoCap (cost_limit_exceeded _ _) = ⊥
IsNoCap _ = Unit {0}

is_cap-IsNoCap : (e : RemediationError) → is_cap e ≡ false → IsNoCap e
unfolding is_cap
is_cap-IsNoCap (claude_unavailable _) h = tt
is_cap-IsNoCap (api_error _) h = tt
is_cap-IsNoCap (claude_error _) h = tt
is_cap-IsNoCap timeout h = tt
is_cap-IsNoCap (rate_limited _) h = tt
is_cap-IsNoCap (cost_limit_exceeded _ _) h = ground arith
is_cap-IsNoCap (parse_error _) h = tt
is_cap-IsNoCap (safety_check_failed _) h = tt
is_cap-IsNoCap (cap_reached _) h = ground arith

-- A run that failed by something other than a cap.
abbrev pub IsRetryable : Interpreted → Type 0
IsRetryable (envelope _) = ⊥
IsRetryable (failed_run e _) = IsNoCap e

-- A run after which another may be made.
abbrev pub MayRetry : Formats → Run → Type 0
MayRetry f ran_too_long = Unit {0}
MayRetry f (not_started _) = Unit {0}
MayRetry f (ended status_ok stdout stderr) = IsRetryable (interpret_run f status_ok stdout stderr)

settle-err :
    (f : Formats) (i : Interpreted) (ms : ℕ) (c : Client) (e : RemediationError)
    → (settle f i ms c).0 ≡ err e
    → is_cap e ≡ false
    → IsRetryable i
unfolding settle
settle-err f (envelope _) ms c e p q = absurd (cc)
settle-err f (failed_run x _) ms c e p q =
    let other : is_cap x ≡ false = cc in is_cap-IsNoCap x other

settle-request_count :
    (f : Formats) (i : Interpreted) (ms : ℕ) (c : Client)
    → (settle f i ms c).1.request_count ≡ c.request_count
unfolding settle add_cost
settle-request_count f (envelope _) ms c = refl
settle-request_count f (failed_run _ _) ms c = refl

read_run-err :
    (f : Formats) (run : Run) (ms : ℕ) (c : Client) (e : RemediationError)
    → (read_run f run ms c).0 ≡ err e
    → is_cap e ≡ false
    → MayRetry f run
unfolding read_run
read_run-err f ran_too_long ms c e p q = tt
read_run-err f (not_started s) ms c e p q = tt
read_run-err f (ended status_ok stdout stderr) ms c e p q =
    settle-err f (interpret_run f status_ok stdout stderr) ms c e p q

read_run-request_count :
    (f : Formats) (run : Run) (ms : ℕ) (c : Client)
    → (read_run f run ms c).1.request_count ≡ c.request_count
unfolding read_run
read_run-request_count f ran_too_long ms c = refl
read_run-request_count f (not_started s) ms c = refl
read_run-request_count f (ended status_ok stdout stderr) ms c =
    settle-request_count f (interpret_run f status_ok stdout stderr) ms c

-- What the effects and the counter say of a call that had `left` attempts, from number `attempt` on,
-- and a counter of `count`.
pub record IsGuarded (f : Formats) (a : Answers) (left attempt count : ℕ) (r : Called)
    : Type 0 where
  pub bounded : runs_in r.effects ≤ left
  pub counted : r.client.request_count % 2 ^ 32 ≡ (count + runs_in r.effects) % 2 ^ 32
  pub retried : (i : ℕ) → suc i < runs_in r.effects → MayRetry f (a.run (attempt + i))

called-IsGuarded :
    (f : Formats) (a : Answers) (left attempt count : ℕ) (reply : Reply) (c : Client)
    → c.request_count % 2 ^ 32 ≡ count % 2 ^ 32
    → IsGuarded f a left attempt count (called reply c)
called-IsGuarded f a left attempt count reply c h = record {
  bounded = omega arith;
  counted = omega arith;
  retried = λ i p. absurd (omega arith);
}

module _ (f : Formats) (a : Answers) (left attempt count : ℕ) where
  one_more :
      (args : List String) (r : Called)
      → (0 < runs_in r.effects → MayRetry f (a.run attempt))
      → IsGuarded f a left (suc attempt) ((count + 1) % 2 ^ 32) r
      → IsGuarded f a (suc left) attempt count (behind (wait_before attempt ++ ran_cli args ∷ []) r)
  one_more args r may g = record {
    bounded = rw (runs_in-wait_before attempt args r.effects) (omega (arith, g.bounded));
    counted = rw (runs_in-wait_before attempt args r.effects) (omega (arith, g.counted));
    retried = earlier;
  }
    where
      earlier :
          (i : ℕ)
          → suc i < runs_in ((wait_before attempt ++ ran_cli args ∷ []) ++ r.effects)
          → MayRetry f (a.run (attempt + i))
      earlier zero p =
          let q = rw (runs_in-wait_before attempt args r.effects) at p in
          let e : attempt + 0 ≡ attempt = omega arith in rw e (may (omega arith))
      earlier (suc i) p =
          let q = rw (runs_in-wait_before attempt args r.effects) at p in
          let e : attempt + suc i ≡ suc attempt + i = omega arith in
          rw e (g.retried i (omega arith))

  last_one :
      (args : List String) (reply : Reply) (c : Client)
      → c.request_count ≡ (count + 1) % 2 ^ 32
      → IsGuarded f a
          (suc left)
          attempt
          count
          (behind (wait_before attempt ++ ran_cli args ∷ []) (called reply c))
  last_one args reply c h =
      one_more args (called reply c) (λ p. absurd (omega arith))
        (called-IsGuarded f a left (suc attempt) ((count + 1) % 2 ^ 32) reply c (omega arith))

  after_reply-IsGuarded :
      (again : Client → Called) (args : List String) (failed_at : ℕ) (after : Client)
      (reply : Reply)
      → ((c : Client) → IsGuarded f a left (suc attempt) c.request_count (again c))
      → after.request_count ≡ (count + 1) % 2 ^ 32
      → ((e : RemediationError) → reply ≡ err e → is_cap e ≡ false → MayRetry f (a.run attempt))
      → IsGuarded f a (suc left) attempt count (
          behind
            (wait_before attempt ++ ran_cli args ∷ [])
            (after_reply again failed_at after reply))
  unfolding after_reply
  after_reply-IsGuarded again args t after (ok r) guarded counted may =
      last_one args (ok r) (note_success after) counted
  after_reply-IsGuarded again args t after (err e) guarded counted may =
      elim (Bool-cases (is_cap e)) [
        | inl cap ↦ simp cap (last_one args (err e) after counted)
        | inr other ↦ simp other (retried_one (counts_as_failure e) other)
      ]
    where
      retried_one :
          (b : Bool)
          → is_cap e ≡ false
          → IsGuarded f a
              (suc left)
              attempt
              count
              (behind (wait_before attempt ++ ran_cli args ∷ []) (again (note_failure b t after)))
      retried_one true other =
          one_more args (again (note_failure true t after)) (λ _. may e refl other)
            (subst (λ n. IsGuarded f a left (suc attempt) n (again (note_failure true t after)))
              counted (guarded (note_failure true t after)))
      retried_one false other =
          one_more args (again after) (λ _. may e refl other)
            (subst (λ n. IsGuarded f a left (suc attempt) n (again after)) counted (guarded after))
  after_reply-IsGuarded again args t after panicked guarded counted may =
      last_one args panicked after counted
  after_reply-IsGuarded again args t after pending guarded counted may =
      last_one args pending after counted

module _ (f : Formats) (config : Config) (a : Answers) (prompt : String) where
  try_attempts-IsGuarded :
      (left attempt : ℕ) (c : Client)
      → IsGuarded f a left attempt c.request_count (try_attempts f config a prompt left attempt c)
  unfolding try_attempts execute_claude_cli count_request
  try_attempts-IsGuarded zero attempt c = called-IsGuarded f a zero attempt c.request_count _ c refl
  try_attempts-IsGuarded (suc left) attempt c =
      after_reply-IsGuarded f a left attempt c.request_count
        (λ client. try_attempts f config a prompt left (suc attempt) client) _ (a.failed_at attempt)
        (read_run f (a.run attempt) (a.elapsed_ms attempt) (count_request c)).1
        (read_run f (a.run attempt) (a.elapsed_ms attempt) (count_request c)).0
        (λ client. try_attempts-IsGuarded left (suc attempt) client)
        (read_run-request_count f (a.run attempt) (a.elapsed_ms attempt) (count_request c))
        (read_run-err f (a.run attempt) (a.elapsed_ms attempt) (count_request c))

  -- The CLI runs at most as often as there are retries; the request counter grows by that, wrapping;
  -- it runs again only behind a run that was too long, did not start, or failed by something other
  -- than a cap; and it runs at all only if remediation is enabled, the circuit lets the call through,
  -- the limiter grants a token, and the cost so far is below the limit.
  pub execute_with_resilience-IsGuarded :
      (clock : Clock) (c : Client)
      → IsGuarded f a config.max_retries 0 c.request_count
          (execute_with_resilience f config a prompt clock c)
        × (0 < runs_in (execute_with_resilience f config a prompt clock c).effects
            → (config.enabled ≡ true)
              × ((should_allow c.breaker a.allow_at).0 ≡ true)
              × ((acquire clock a.times thirty_seconds a.rounds c.limiter).0 ≡ acquired)
              × (c.total_cost_usd < config.cost_limit_usd))
  execute_with_resilience-IsGuarded clock c =
      elim (execute_with_resilience-cases f config a prompt clock c) [
        | inl (reply, left, e, counted, spent) ↦ rw e (
          called-IsGuarded f a config.max_retries 0 c.request_count reply left
              (omega (arith, counted)),
          λ p. absurd (omega arith),
        )
        | inr (start, on, allowed, got, under, made, counted, spent, held) ↦ rw made (
          subst
              (λ n.
                IsGuarded f a config.max_retries 0 n
                  (try_attempts f config a prompt config.max_retries 0 start))
              counted (try_attempts-IsGuarded config.max_retries 0 start),
          λ p. (on, allowed, got, under),
        )
      ]
