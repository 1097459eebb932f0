-- ===== src/Reporting/Metrics.antt =====
-- src/reporting/metrics.rs: `MetricsSnapshot` and `MetricsReport::compute`. Times are in nanoseconds; a rate
-- is the pair of its counts, and a duration in seconds the pair of its milliseconds and 1000. The counts
-- are of entries in memory, of which there are fewer than 2^64.
pub mod Health
pub mod Sums
mod Tests
use automated_flywheel_setup.Base.{
  ℕ, ◌+◌, ◌-◌, ◌*◌, ◌/◌, ◌%◌, ◌^◌, String, Bool, true, false, Option, none, some, List, [], ◌∷◌,
  length, map_option, unwrap_or, max, leb, ltb, ◌==ₛ◌, if◌then◌else◌,
}
use automated_flywheel_setup.Base.Int.{ℤ, pos, negsuc, sub_ℕ, as_i64, gtb}
use automated_flywheel_setup.Remediation.Outcome.{
  Usd, RemediationOutcome, cost_usd, attempted, succeeded,
}
use automated_flywheel_setup.Reporting.History.{is_failure_status}
use automated_flywheel_setup.Reporting.Persist.{ResultEntry, RunSummaryEntry}
use automated_flywheel_setup.Reporting.Loaded.{LoadedRun, History, latest, runs_within}

-- `WINDOW`, 24 hours
abbrev pub window_24h : ℕ
window_24h = 86_400_000_000_000

pub record MetricsSnapshot : Type 0 where
  pub last_test : Option ℕ
  pub last_success : Option ℕ
  pub last_failure : Option ℕ
  pub success_rate_24h : ℕ × ℕ
  pub total_tests_24h : ℕ
  pub successful_tests_24h : ℕ
  pub total_remediations_24h : ℕ
  pub uptime_seconds : ℕ
  pub snapshot_time : ℕ
  pub runs_24h : ℕ

abbrev note_result : Bool → ℕ → MetricsSnapshot → MetricsSnapshot
note_result true now m = record m {
  last_success = some now;
  successful_tests_24h = (m.successful_tests_24h + 1) % 2 ^ 64;
}
note_result false now m = record m { last_failure = some now }

abbrev rate_again : MetricsSnapshot → MetricsSnapshot
rate_again m =
    if ltb 0 m.total_tests_24h
    then record m { success_rate_24h = (m.successful_tests_24h, m.total_tests_24h) }
    else m

-- `record_test`, with the times of its three looks at the clock
unfoldable pub record_test : Bool → (tested noted saved : ℕ) → MetricsSnapshot → MetricsSnapshot
record_test success tested noted saved m =
    record (rate_again (
      note_result success noted (record m {
        last_test = some tested;
        total_tests_24h = (m.total_tests_24h + 1) % 2 ^ 64;
      }))) { snapshot_time = saved }

-- `record_remediation`
unfoldable pub record_remediation : ℕ → MetricsSnapshot → MetricsSnapshot
record_remediation now m = record m {
  total_remediations_24h = (m.total_remediations_24h + 1) % 2 ^ 64;
  snapshot_time = now;
}

-- `reset_if_stale`
unfoldable pub reset_if_stale : ℕ → MetricsSnapshot → MetricsSnapshot
reset_if_stale now m =
    if ltb window_24h (now - m.snapshot_time)
    then record m {
      total_tests_24h = 0;
      successful_tests_24h = 0;
      success_rate_24h = (0, 1);
      total_remediations_24h = 0;
      runs_24h = 0;
    }
    else m

-- `set_uptime`
unfoldable pub set_uptime : (seconds now : ℕ) → MetricsSnapshot → MetricsSnapshot
set_uptime seconds now m = record m { uptime_seconds = seconds; snapshot_time = now }

pub record InstallerMetric : Type 0 where
  pub status : ℤ
  pub duration_seconds : ℕ × ℕ
  pub attempts : ℕ
  pub run_id : String

pub data HealthState : Type 0 where
  no_data healthy stale : HealthState

pub record ValidationReport : Type 0 where
  pub checked_at : Option ℕ
  pub checksums_path : String
  pub total : ℕ
  pub matched : ℕ
  pub mismatched : List String
  pub unreachable : List String

-- `drift_total`
abbrev pub drift_total : ValidationReport → ℕ
drift_total v = (length v.mismatched + length v.unreachable) % 2 ^ 64

pub record MetricsReport : Type 0 where
  pub computed_at : ℕ
  pub health : HealthState
  pub last_run_id : Option String
  pub last_run_at : Option ℕ
  pub last_run_age_seconds : Option ℤ
  pub last_run_interrupted : Bool
  pub last_run_duration_seconds : ℕ × ℕ
  pub last_success : Option ℕ
  pub last_failure : Option ℕ
  pub runs_24h : ℕ
  pub total_tests_24h : ℕ
  pub successful_tests_24h : ℕ
  pub failed_tests_24h : ℕ
  pub success_rate_24h : ℕ × ℕ
  pub total_remediations_24h : ℕ
  pub remediations_verified_24h : ℕ
  pub remediations_cost_usd_24h : Usd
  pub checksum_drift_total : Option ℕ
  pub validated_at : Option ℕ
  pub installers : List (String × InstallerMetric)
  pub stale_after_seconds : ℕ

-- `last.max(Some(t))`
abbrev pub later_of : Option ℕ → ℕ → Option ℕ
later_of none t = some t
later_of (some s) t = some (max s t)

-- `last_success` and `last_failure`
abbrev pub Lasts : Type 0
Lasts = Option ℕ × Option ℕ

unfoldable pub last_entry : ResultEntry → Lasts → Lasts
unfolding is_failure_status
last_entry e (success, failure) =
    if e.status ==ₛ "passed"
    then (later_of success e.timestamp, failure)
    else if is_failure_status e.status
    then (success, later_of failure e.timestamp)
    else (success, failure)

unfoldable pub last_entries : List ResultEntry → Lasts → Lasts
unfolding last_entry
last_entries [] l = l
last_entries (e ∷ es) l = last_entries es (last_entry e l)

unfoldable pub last_runs : History → Lasts → Lasts
unfolding last_entries
last_runs [] l = l
last_runs (run ∷ runs) l = last_runs runs (last_entries run.entries l)

-- The variables of the loop over the window.
pub record Totals : Type 0 where
  pub remediations : ℕ
  pub remediations_verified : ℕ
  pub remediations_cost : Usd
  pub total : ℕ
  pub successful : ℕ
  pub failed : ℕ

abbrev pub no_totals : Totals
no_totals = record {
  remediations = 0;
  remediations_verified = 0;
  remediations_cost = 0;
  total = 0;
  successful = 0;
  failed = 0;
}

abbrev pub one_if : Bool → ℕ
one_if true = 1
one_if false = 0

unfoldable pub count_remediation : Option RemediationOutcome → Totals → Totals
unfolding attempted succeeded cost_usd
count_remediation none c = c
count_remediation (some r) c = record c {
  remediations = c.remediations + one_if (attempted r);
  remediations_cost = if attempted r then c.remediations_cost + cost_usd r else c.remediations_cost;
  remediations_verified = c.remediations_verified + one_if (succeeded r);
}

unfoldable pub count_status : String → Totals → Totals
unfolding is_failure_status
count_status status c =
    if status ==ₛ "skipped"
    then c
    else if status ==ₛ "passed"
    then record c { total = c.total + 1; successful = c.successful + 1 }
    else if is_failure_status status
    then record c { total = c.total + 1; failed = c.failed + 1 }
    else record c { total = c.total + 1 }

unfoldable pub count_entries : List ResultEntry → Totals → Totals
unfolding count_remediation count_status
count_entries [] c = c
count_entries (e ∷ es) c =
    count_entries es (count_status e.status (count_remediation e.remediation c))

unfoldable pub count_runs : History → Totals → Totals
unfolding count_entries
count_runs [] c = c
count_runs (run ∷ runs) c = count_runs runs (count_entries run.entries c)

abbrev pub status_value : String → ℤ
status_value status =
    if status ==ₛ "passed"
    then pos 1
    else if status ==ₛ "failed"
    then pos 0
    else if status ==ₛ "timedout"
    then pos 0
    else negsuc 0

abbrev pub metric_of : LoadedRun → ResultEntry → InstallerMetric
metric_of run e = record {
  status = status_value e.status;
  duration_seconds = (e.duration_ms, 1000);
  attempts = max (length e.attempts) 1;
  run_id = run.info.run_id;
}

-- `entry(name).or_insert_with(..)`: the first run that has the installer stays.
unfoldable pub or_insert :
    String → InstallerMetric → List (String × InstallerMetric) → List (String × InstallerMetric)
or_insert name m [] = (name, m) ∷ []
or_insert name m ((n, old) ∷ rest) =
    let later = or_insert name m rest in if n ==ₛ name then (n, old) ∷ rest else (n, old) ∷ later

unfoldable pub insert_entries :
    LoadedRun → List ResultEntry → List (String × InstallerMetric) → List (String × InstallerMetric)
unfolding or_insert
insert_entries run [] ms = ms
insert_entries run (e ∷ es) ms =
    insert_entries run es (or_insert e.installer_name (metric_of run e) ms)

unfoldable pub insert_runs :
    History → List (String × InstallerMetric) → List (String × InstallerMetric)
unfolding insert_entries
insert_runs [] ms = ms
insert_runs (run ∷ runs) ms = insert_runs runs (insert_entries run run.entries ms)

-- `(now - t).num_seconds()`, which goes towards zero
unfoldable pub age_seconds : (now t : ℕ) → ℤ
age_seconds now t =
    if leb t now then pos ((now - t) / 1_000_000_000) else sub_ℕ 0 ((t - now) / 1_000_000_000)

unfoldable pub health_of : ℕ → Option ℤ → HealthState
health_of stale_after_seconds none = no_data
health_of stale_after_seconds (some a) =
    if gtb a (as_i64 stale_after_seconds) then stale else healthy

abbrev pub started_at_of : LoadedRun → ℕ
started_at_of r = r.info.started_at

abbrev pub interrupted_of : Option LoadedRun → Bool
interrupted_of none = false
interrupted_of (some r) = r.info.interrupted

abbrev pub duration_of : Option RunSummaryEntry → ℕ × ℕ
duration_of none = (0, 1)
duration_of (some s) = (s.duration_total_ms, 1000)

abbrev pub run_duration : Option LoadedRun → ℕ × ℕ
run_duration none = (0, 1)
run_duration (some r) = duration_of r.summary

abbrev pub validated : Option ValidationReport → Option ℕ
validated none = none
validated (some v) = v.checked_at

abbrev pub rate_of : (successful total : ℕ) → ℕ × ℕ
rate_of successful total = if ltb 0 total then (successful, total) else (0, 1)

-- `MetricsReport::compute`
unfoldable pub compute :
    History → (now stale_after_seconds : ℕ) → Option ValidationReport → ℕ → MetricsReport
unfolding runs_within last_runs count_runs insert_runs age_seconds health_of
compute runs now stale_after_seconds validation remediations_24h =
    let window = runs_within now window_24h runs in
    let c = count_runs window no_totals in
    let (last_success, last_failure) = last_runs runs (none, none) in
    let last_run_at = map_option started_at_of (latest runs) in
    let age = map_option (age_seconds now) last_run_at in
    record {
      computed_at = now;
      health = health_of stale_after_seconds age;
      last_run_id = map_option (λ r. r.info.run_id) (latest runs);
      last_run_at = last_run_at;
      last_run_age_seconds = age;
      last_run_interrupted = interrupted_of (latest runs);
      last_run_duration_seconds = run_duration (latest runs);
      last_success = last_success;
      last_failure = last_failure;
      runs_24h = length window;
      total_tests_24h = c.total;
      successful_tests_24h = c.successful;
      failed_tests_24h = c.failed;
      success_rate_24h = rate_of c.successful c.total;
      total_remediations_24h = max c.remediations remediations_24h;
      remediations_verified_24h = c.remediations_verified;
      remediations_cost_usd_24h = c.remediations_cost;
      checksum_drift_total = map_option drift_total validation;
      validated_at = validated validation;
      installers = insert_runs runs [];
      stale_after_seconds = stale_after_seconds;
    }

-- `MetricsReport::snapshot`
abbrev pub snapshot : MetricsReport → (remediations_24h uptime_seconds : ℕ) → MetricsSnapshot
snapshot r remediations_24h uptime_seconds = record {
  last_test = r.last_run_at;
  last_success = r.last_success;
  last_failure = r.last_failure;
  success_rate_24h = r.success_rate_24h;
  total_tests_24h = r.total_tests_24h;
  successful_tests_24h = r.successful_tests_24h;
  total_remediations_24h = remediations_24h;
  uptime_seconds = uptime_seconds;
  snapshot_time = r.computed_at;
  runs_24h = r.runs_24h;
}

abbrev fresh_remediations : ℕ → Option MetricsSnapshot → ℕ
fresh_remediations now none = 0
fresh_remediations now (some s) =
    if leb (now - s.snapshot_time) window_24h then s.total_remediations_24h else 0

-- `from_data_dir`, with what was loaded: the history, the validation report and the snapshot
unfoldable pub from_data_dir :
    History
    → Option ValidationReport
    → Option MetricsSnapshot
    → (now stale_after_seconds : ℕ) → MetricsReport
unfolding compute
from_data_dir runs validation saved now stale_after_seconds =
    compute runs now stale_after_seconds validation (fresh_remediations now saved)
