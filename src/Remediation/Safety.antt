-- ===== src/Remediation/Safety.antt =====
-- src/remediation/safety.rs: `is_command_safe`, over the regular expressions' interface.
use automated_flywheel_setup.Base.{
  String, ◌≡◌, refl, ◌↔◌, ◌⊎◌, Bool, true, false, ◌&&◌, Option, none, some, List, [], ◌∷◌, arith,
  contains, concat, any, is_some, if◌then◌else◌,
}
use automated_flywheel_setup.Classifier.{Engine}

pub data RiskLevel : Type 0 where
  safe_level low medium high critical : RiskLevel

pub record SafetyCheck : Type 0 where
  pub safe : Bool
  pub reason : Option String
  pub risk_level : RiskLevel

unfoldable pub critical_patterns : List String
critical_patterns =
    "rm\\s+-rf\\s+/" ∷ "rm\\s+-rf\\s+\\*" ∷ "mkfs" ∷ "dd\\s+if=.+of=/dev" ∷ ":(){ :|:& };:"
    ∷ ">\\s*/dev/sd" ∷ "chmod\\s+-R\\s+777\\s+/" ∷ []

unfoldable pub high_risk_patterns : List String
high_risk_patterns =
    "sudo\\s+rm" ∷ "sudo\\s+chmod" ∷ "sudo\\s+chown" ∷ "git\\s+push\\s+--force"
    ∷ "git\\s+reset\\s+--hard" ∷ []

module _ (e : Engine) (command : String) where
  -- One round of either loop: a pattern that compiles and matches.
  abbrev pub hits : String → Bool
  hits p = e.compiles p && e.is_match p command

  -- The first pattern of a loop that matches.
  unfoldable pub first_hit : List String → Option String
  first_hit [] = none
  first_hit (p ∷ ps) = let rest = first_hit ps in if hits p then some p else rest

  -- What follows the two loops.
  abbrev pub flag_sudo : SafetyCheck
  flag_sudo =
      if contains command "sudo"
      then record { safe = true; reason = some "Command uses sudo"; risk_level = medium }
      else record { safe = true; reason = none; risk_level = safe_level }

  abbrev pub check_high : Option String → SafetyCheck
  check_high none = flag_sudo
  check_high (some p) = record {
    safe = false;
    reason = some (concat ("Matches high-risk pattern: " ∷ p ∷ []));
    risk_level = high;
  }

  abbrev pub check_critical : Option String → SafetyCheck
  check_critical none = check_high (first_hit high_risk_patterns)
  check_critical (some p) = record {
    safe = false;
    reason = some (concat ("Matches critical pattern: " ∷ p ∷ []));
    risk_level = critical;
  }

  unfoldable pub is_command_safe : SafetyCheck
  is_command_safe = check_critical (first_hit critical_patterns)

  first_hit-any : (ps : List String) → is_some (first_hit ps) ≡ any hits ps
  unfolding first_hit
  first_hit-any [] = refl
  first_hit-any (p ∷ ps) = ground (arith, first_hit-any ps)

  -- A command is refused exactly if one of the twelve patterns matches it.
  is_command_safe-safe_iff :
      (is_command_safe.safe ≡ false)
      ↔ ((any hits critical_patterns ≡ true) ⊎ (any hits high_risk_patterns ≡ true))
  unfolding is_command_safe
  is_command_safe-safe_iff =
      ground (arith, first_hit-any critical_patterns, first_hit-any high_risk_patterns)

  -- A command is refused exactly at the levels High and Critical, Critical being the answer whenever
  -- a critical pattern matches; and a reason is missing exactly at the level Safe.
  is_command_safe-risk_level :
      ((is_command_safe.safe ≡ false)
        ↔ ((is_command_safe.risk_level ≡ high) ⊎ (is_command_safe.risk_level ≡ critical)))
      × ((is_command_safe.risk_level ≡ critical) ↔ (any hits critical_patterns ≡ true))
      × ((is_command_safe.reason ≡ none) ↔ (is_command_safe.risk_level ≡ safe_level))
  unfolding is_command_safe
  is_command_safe-risk_level =
      (ground arith, ground (arith, first_hit-any critical_patterns), ground arith)
