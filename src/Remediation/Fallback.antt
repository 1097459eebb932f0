-- ===== src/Remediation/Fallback.antt =====
-- src/remediation/fallback.rs: suggestions for manual remediation.
use automated_flywheel_setup.Base.{String, Option, none, some, List, [], ◌∷◌}
use automated_flywheel_setup.Classifier.{
  ErrorSeverity, transient, configuration, dependency, permission, resource, unknown,
  ErrorClassification,
}

pub record FallbackSuggestion : Type 0 where
  pub title : String
  pub description : String
  pub commands : List String
  pub documentation_url : Option String

abbrev check_configuration : FallbackSuggestion
check_configuration = record {
  title = "Check configuration";
  description = "Review the error message and configuration files.";
  commands = [];
  documentation_url = some "https://github.com/Dicklesworthstone/agentic_coding_flywheel_setup";
}

abbrev suggestions_for : ErrorSeverity → List FallbackSuggestion
suggestions_for transient =
    record {
      title = "Retry the operation";
      description = "This appears to be a transient error. Try again in a few moments.";
      commands = [];
      documentation_url = none;
    }
    ∷ []
suggestions_for permission =
    record {
      title = "Check permissions";
      description = "The operation was denied due to insufficient permissions.";
      commands = "sudo chown -R $USER:$USER ~/.local" ∷ "chmod +x <script>" ∷ [];
      documentation_url = none;
    }
    ∷ []
suggestions_for dependency =
    record {
      title = "Install missing dependencies";
      description = "Required software is not installed.";
      commands = "sudo apt update && sudo apt install -y <package>" ∷ [];
      documentation_url = none;
    }
    ∷ []
suggestions_for resource =
    record {
      title = "Free up resources";
      description = "The system is low on resources (disk space or memory).";
      commands = "df -h" ∷ "free -h" ∷ "sudo apt autoremove" ∷ [];
      documentation_url = none;
    }
    ∷ []
suggestions_for configuration = check_configuration ∷ []
suggestions_for unknown = check_configuration ∷ []

unfoldable pub generate_suggestions : ErrorClassification → List FallbackSuggestion
generate_suggestions classification = suggestions_for classification.severity
