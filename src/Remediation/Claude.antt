-- ===== src/Remediation/Claude.antt =====
-- src/remediation/claude.rs: what one run of the CLI told. `serde_json`, the formats of amounts of money,
-- the `Debug` of an option and what a cost is booked as are an interface; amounts are millionths of a
-- dollar, whole.
pub mod Client
use text.Mathlib.Text.{starts_with}
use automated_flywheel_setup.Base.{
  ℕ, String, Bool, true, false, not, ◌&&◌, ◌||◌, ◌==ₛ◌, Option, none, some, List, [], ◌∷◌, ◌++◌,
  max, concat, contains, trim, trim_start, lines, is_empty, unwrap_or, show, take_chars,
  if◌then◌else◌,
}
use automated_flywheel_setup.Remediation.Outcome.{Usd}

pub data RemediationError : Type 0 where
  claude_unavailable : String → RemediationError
  api_error : String → RemediationError
  claude_error : String → RemediationError
  timeout : RemediationError
  rate_limited : String → RemediationError
  cost_limit_exceeded : (current limit : Usd) → RemediationError
  parse_error : String → RemediationError
  safety_check_failed : String → RemediationError
  cap_reached : String → RemediationError

pub record ClaudeEnvelope : Type 0 where
  pub result : String
  pub is_error : Bool
  pub total_cost_usd : Usd
  pub num_turns : ℕ
  pub session_id : Option String
  pub duration_ms : ℕ
  pub subtype : Option String
  pub errors : List String

pub record Formats : Type 0 where
  -- `serde_json::from_str::<ClaudeEnvelope>`
  pub envelope_of : String → Option ClaudeEnvelope
  -- `{:.2}` and `{:.4}` of dollars, and `{:?}` of a subtype
  pub dollars_2 : Usd → String
  pub dollars_4 : Usd → String
  pub debug_subtype : Option String → String
  -- `(cost as f32 * 1_000_000.0) as u64`, the millionths that a cost is booked as
  pub booked : Usd → ℕ

-- `join(sep)`
unfoldable pub join_with : String → List String → String
join_with sep [] = ""
join_with sep (s ∷ []) = s
join_with sep (s ∷ t ∷ rest) = concat (s ∷ sep ∷ join_with sep (t ∷ rest) ∷ [])

unfoldable pub is_none_left : List String → Bool
is_none_left [] = true
is_none_left (_ ∷ _) = false

-- `error_reason`
unfoldable pub error_reason : ClaudeEnvelope → String
unfolding join_with is_none_left
error_reason e =
    if not (is_none_left e.errors)
    then join_with "; " e.errors
    else if not (is_empty e.result) && not (e.result ==ₛ "null")
    then e.result
    else unwrap_or e.subtype "claude reported is_error=true"

abbrev pub subtype_is_cap : Option String → Bool
subtype_is_cap none = false
subtype_is_cap (some s) = starts_with s "error_max_"

-- `hit_cap`
unfoldable pub hit_cap : ClaudeEnvelope → Bool
hit_cap e = subtype_is_cap e.subtype

-- An envelope of nothing but a text.
abbrev pub plain_text : String → ClaudeEnvelope
plain_text text = record {
  result = text;
  is_error = false;
  total_cost_usd = 0;
  num_turns = 0;
  session_id = none;
  duration_ms = 0;
  subtype = none;
  errors = [];
}

-- What a run gives: an envelope, or an error with what it cost.
pub data Interpreted : Type 0 where
  envelope : ClaudeEnvelope → Interpreted
  failed_run : RemediationError → Usd → Interpreted

module _ (f : Formats) where
  abbrev pub usable : ClaudeEnvelope → Bool
  usable e = not (is_empty e.result) || e.is_error

  abbrev pub or_usable : Option ClaudeEnvelope → Option ClaudeEnvelope → Option ClaudeEnvelope
  or_usable none found = found
  or_usable (some e) found = if usable e then some e else found

  -- The last line that is a usable envelope: what the lines behind have goes first.
  unfoldable pub last_envelope : List String → Option ClaudeEnvelope
  last_envelope [] = none
  last_envelope (line ∷ rest) =
      let later = last_envelope rest in
      elim later [ some e ↦ some e | none ↦ or_usable (f.envelope_of (trim line)) none ]

  abbrev pub parse_from : String → Option ClaudeEnvelope → ClaudeEnvelope
  parse_from trimmed (some e) = e
  parse_from trimmed none = unwrap_or (last_envelope (lines trimmed)) (plain_text trimmed)

  -- `ClaudeEnvelope::parse`
  unfoldable pub parse : String → ClaudeEnvelope
  unfolding last_envelope
  parse stdout = parse_from (trim stdout) (f.envelope_of (trim stdout))

  unfoldable pub full_reason : ClaudeEnvelope → String
  unfolding error_reason
  full_reason e = concat (
      error_reason e
      ∷ " (after "
      ∷ show e.num_turns
      ∷ " turn(s), $"
      ∷ f.dollars_4 e.total_cost_usd
      ∷ ")"
      ∷ [])

  unfoldable pub reported_error : ClaudeEnvelope → RemediationError
  unfolding full_reason hit_cap
  reported_error e = if hit_cap e then cap_reached (full_reason e) else claude_error (full_reason e)

  -- The detail of a failed run, from `stdout` and the trimmed `stderr`.
  unfoldable pub detail_of : ClaudeEnvelope → String → String → String
  detail_of e stdout stderr =
      if not (is_empty stderr)
      then stderr
      else if starts_with (trim_start stdout) "{"
      then concat (
          "exit status non-zero with a non-error envelope (subtype "
          ∷ f.debug_subtype e.subtype
          ∷ ")"
          ∷ [])
      else concat
          ("exit status non-zero, no envelope; stdout: " ∷ take_chars 300 (trim stdout) ∷ [])

  -- A run that failed, with its trimmed `stderr`.
  unfoldable pub status_error : ClaudeEnvelope → String → String → RemediationError
  unfolding detail_of
  status_error e stdout stderr =
      if contains stderr "rate limit" || contains stderr "429"
      then api_error "Rate limited by Anthropic API"
      else if contains stderr "authentication" || contains stderr "401"
      then claude_unavailable "Authentication failed"
      else claude_error (detail_of e stdout stderr)

  -- `interpret_run`
  unfoldable pub interpret_run : Bool → String → String → Interpreted
  unfolding parse reported_error status_error
  interpret_run status_ok stdout stderr =
      let e = parse stdout in
      if e.is_error
      then failed_run (reported_error e) e.total_cost_usd
      else if not status_ok
      then failed_run (status_error e stdout (trim stderr)) e.total_cost_usd
      else envelope e

  -- `advisory_args`
  unfoldable pub advisory_args : ℕ → Usd → String → List String
  advisory_args max_turns max_budget_usd prompt =
      "--print"
      ∷ "--output-format"
      ∷ "json"
      ∷ "--permission-mode"
      ∷ "default"
      ∷ "--tools"
      ∷ "Read,Grep,Glob"
      ∷ "--max-turns"
      ∷ show (max max_turns 1)
      ∷ "--max-budget-usd"
      ∷ f.dollars_2 max_budget_usd
      ∷ "-p"
      ∷ prompt
      ∷ []

  -- `edit_args`
  unfoldable pub edit_args : ℕ → Usd → String → Bool → String → List String
  edit_args max_turns max_budget_usd worktree allow_bash prompt =
      let tools =
        if allow_bash then "Read,Grep,Glob,Edit,Write,Bash" else "Read,Grep,Glob,Edit,Write" in
      "--print"
      ∷ "--output-format"
      ∷ "json"
      ∷ "--permission-mode"
      ∷ "acceptEdits"
      ∷ "--tools"
      ∷ tools
      ∷ "--add-dir"
      ∷ worktree
      ∷ "--max-turns"
      ∷ show (max max_turns 1)
      ∷ "--max-budget-usd"
      ∷ f.dollars_2 max_budget_usd
      ∷ "-p"
      ∷ prompt
      ∷ []
