-- ===== src/Reporting/Diff/Tests.antt =====
-- The comparison at concrete runs.
use automated_flywheel_setup.Base.{◌≡◌, refl, none, some, [], ◌∷◌, map}
use automated_flywheel_setup.Reporting.History.{is_failure_status}
use automated_flywheel_setup.Reporting.Diff.{
  ResultEntry, LoadedRun, entry, diff_names, compare_entries, regressed,
}

abbrev good : ResultEntry
good = record { installer_name = "jq"; status = "passed"; category = none }

abbrev bad : ResultEntry
bad = record { installer_name = "jq"; status = "failed"; category = some "network" }

abbrev run : LoadedRun
run = record { run_id = "1"; started_at = 5; entries = good ∷ [] }

abbrev later : LoadedRun
later = record { run_id = "2"; started_at = 9; entries = bad ∷ [] }

one_regression :
    map (λ e. e.change) (diff_names (good ∷ []) (bad ∷ []) ("jq" ∷ [])).0 ≡ regressed ∷ []
unfolding diff_names entry compare_entries is_failure_status
one_regression = refl
