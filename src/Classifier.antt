-- ===== src/Classifier.antt =====
-- src/parser/classifier.rs: severities, classifications, and the regular expressions' interface.
-- `confidence`, a literal with two decimals in the source, is kept in hundredths. The `regex` crate
-- is a parameter: `Engine` has what the classifier calls of it, with its documented laws.
pub mod Patterns
pub mod Rules
pub mod Categories
pub mod Retryable
pub mod Explain
pub mod Tests
use automated_flywheel_setup.Base.{
  ℕ, String, ◌≡◌, Bool, Option, none, some, List, [], ◌∷◌, contains, any, keep, is_some,
}

pub data ErrorSeverity : Type 0 where
  transient configuration dependency permission resource unknown : ErrorSeverity

pub record ErrorClassification : Type 0 where
  pub severity : ErrorSeverity
  pub category : String
  pub suggestion : Option String
  pub retryable : Bool
  pub confidence : ℕ

-- `TIMEOUT_MARKER`
abbrev pub timeout_marker : String
timeout_marker = "AFSC_TIMEOUT: test timed out"

-- `CANCELLED_MARKER`
abbrev pub cancelled_marker : String
cancelled_marker = "AFSC_CANCELLED: run cancelled"

-- `POST_INSTALL_MARKER`
abbrev pub post_install_marker : String
post_install_marker = "AFSC_POST_INSTALL: verification failed"

-- `CATEGORIES`, in evaluation order
abbrev pub categories : List String
categories =
    "cancelled" ∷ "timeout" ∷ "post_install" ∷ "bootstrap_mismatch" ∷ "checksum_mismatch"
    ∷ "network" ∷ "apt_repair_failed" ∷ "command_not_found" ∷ "permission" ∷ "dependency"
    ∷ "resource" ∷ "syntax_error" ∷ "unknown" ∷ []

-- The regex crate: whether a pattern compiles, whether it matches a text, and where it first does.
-- The two laws are documented there.
pub record Engine : Type 0 where
  pub compiles : String → Bool
  pub is_match : String → String → Bool
  pub find : String → String → Option ℕ
  pub is_match-find : (p t : String) → is_match p t ≡ is_some (find p t)

-- `Patterns::get`: the patterns that compile, in order. Compiling once and caching has no effect.
abbrev pub compiled : Engine → List String → List String
compiled e sources = keep e.compiles sources

-- `matches`
unfoldable pub matches : Engine → List String → String → Bool
matches e sources text = any (λ p. e.is_match p text) (compiled e sources)
