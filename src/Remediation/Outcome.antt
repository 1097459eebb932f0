-- ===== src/Remediation/Outcome.antt =====
-- src/remediation/outcome.rs: what remediation did for a result. Amounts of money, `f64` dollars in
-- the source, are counted in millionths of a dollar.
use automated_flywheel_setup.Base.{ℕ, String, Bool, true, false, Option, List}

abbrev pub Usd : Type 0
Usd = ℕ

pub record RiskNote : Type 0 where
  pub command : String
  pub risk : String
  pub reason : String

pub data RemediationOutcome : Type 0 where
  not_attempted : RemediationOutcome
  skipped : (reason : String) → RemediationOutcome
  advised :
      (suggestion : String) (cost_usd : Usd) (risks : List RiskNote) (source : String)
      → RemediationOutcome
  verified :
      (installer old_sha256 new_sha256 candidate_path : String) (drift_score : Option String)
      → RemediationOutcome
  proposed : (branch : String) (commit pr_url : Option String) (cost_usd : Usd) → RemediationOutcome
  applied : (branch sha : String) (pr_url : Option String) (cost_usd : Usd) → RemediationOutcome
  failed : (reason : String) (cost_usd : Usd) → RemediationOutcome

unfoldable pub kind : RemediationOutcome → String
kind not_attempted = "not_attempted"
kind (skipped _) = "skipped"
kind (advised _ _ _ _) = "advised"
kind (verified _ _ _ _ _) = "verified"
kind (proposed _ _ _ _) = "proposed"
kind (applied _ _ _ _) = "applied"
kind (failed _ _) = "failed"

unfoldable pub cost_usd : RemediationOutcome → Usd
cost_usd (advised _ cost _ _) = cost
cost_usd (proposed _ _ _ cost) = cost
cost_usd (applied _ _ _ cost) = cost
cost_usd (failed _ cost) = cost
cost_usd _ = 0

-- "Counts toward `remediations_total`."
unfoldable pub attempted : RemediationOutcome → Bool
attempted not_attempted = false
attempted (skipped _) = false
attempted _ = true

unfoldable pub succeeded : RemediationOutcome → Bool
succeeded (verified _ _ _ _ _) = true
succeeded (applied _ _ _ _) = true
succeeded _ = false
