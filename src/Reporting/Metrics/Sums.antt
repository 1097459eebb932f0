-- ===== src/Reporting/Metrics/Sums.antt =====
-- src/reporting/metrics.rs: the sums of a report, against counts over the entries of the window.
use automated_flywheel_setup.Base.{
  ℕ, ◌+◌, ◌-◌, String, ◌≡◌, refl, sym, ap, ◌∙◌, Bool, false, not, ◌&&◌, Option, none, some, List,
  [], ◌∷◌, ◌++◌, count_by, leb, max, ◌==ₛ◌, eq_iff, arith, Bool-cases, inl, inr, if◌then◌else◌,
}
use automated_flywheel_setup.Remediation.Outcome.{
  Usd, RemediationOutcome, cost_usd, attempted, succeeded,
}
use automated_flywheel_setup.Reporting.History.{is_failure_status}
use automated_flywheel_setup.Reporting.Persist.{ResultEntry}
use automated_flywheel_setup.Reporting.Loaded.{History, runs_within}
use automated_flywheel_setup.Reporting.Metrics.{
  window_24h, ValidationReport, Totals, no_totals, one_if, count_remediation, count_status,
  count_entries, count_runs, compute,
}

-- The entries of the runs that started in the 24 hours before `now`.
unfoldable pub recent_entries : ℕ → History → List ResultEntry
recent_entries now [] = []
recent_entries now (run ∷ runs) =
    let later = recent_entries now runs in
    if leb (now - window_24h) run.info.started_at && leb run.info.started_at now
    then run.entries ++ later
    else later

abbrev pub is_run : ResultEntry → Bool
is_run e = not (e.status ==ₛ "skipped")

abbrev pub is_pass : ResultEntry → Bool
is_pass e = e.status ==ₛ "passed"

unfoldable pub is_fail : ResultEntry → Bool
unfolding is_failure_status
is_fail e = is_failure_status e.status

abbrev pub tests_outcome : (RemediationOutcome → Bool) → ResultEntry → Bool
tests_outcome p e = elim e.remediation [ none ↦ false | some r ↦ p r ]

abbrev pub paid_for : Option RemediationOutcome → Usd
paid_for none = 0
paid_for (some r) = if attempted r then cost_usd r else 0

-- What the attempted remediations cost.
unfoldable pub cost_of_all : List ResultEntry → Usd
unfolding attempted cost_usd
cost_of_all [] = 0
cost_of_all (e ∷ es) = paid_for e.remediation + cost_of_all es

count_entries-append :
    (xs ys : List ResultEntry) (c : Totals)
    → count_entries (xs ++ ys) c ≡ count_entries ys (count_entries xs c)
unfolding count_entries
count_entries-append [] ys c = refl
count_entries-append (x ∷ xs) ys c =
    count_entries-append xs ys (count_status x.status (count_remediation x.remediation c))

count_runs-recent_entries :
    (now : ℕ) (runs : History) (c : Totals)
    → count_runs (runs_within now window_24h runs) c ≡ count_entries (recent_entries now runs) c
unfolding count_runs runs_within recent_entries count_entries
count_runs-recent_entries now [] c = refl
count_runs-recent_entries now (run ∷ runs) c =
    elim (Bool-cases (leb (now - window_24h) run.info.started_at && leb run.info.started_at now)) [
      | inl inside ↦ simp inside (
          count_runs-recent_entries now runs (count_entries run.entries c)
          ∙ sym (count_entries-append run.entries (recent_entries now runs) c))
      | inr outside ↦ simp outside (count_runs-recent_entries now runs c)
    ]

-- One round's counts of outcomes, by the status.
count_status-statuses :
    (status : String) (c : Totals)
    → ((count_status status c).total ≡ c.total + one_if (not (status ==ₛ "skipped")))
      × ((count_status status c).successful ≡ c.successful + one_if (status ==ₛ "passed"))
      × ((count_status status c).failed ≡ c.failed + one_if (is_failure_status status))
unfolding count_status is_failure_status
count_status-statuses status c = elim (Bool-cases (status ==ₛ "skipped")) [
  | inl same ↦
      let e : status ≡ "skipped" = (eq_iff status "skipped").0 same in
      rw e (omega arith, omega arith, omega arith)
  | inr other ↦ elim (Bool-cases (status ==ₛ "passed")) [
    | inl same ↦
        let e : status ≡ "passed" = (eq_iff status "passed").0 same in
        rw e (omega arith, omega arith, omega arith)
    | inr neither ↦ simp (other, neither) (ground arith, ground arith, ground arith)
  ]
]

count_remediation-statuses :
    (o : Option RemediationOutcome) (c : Totals)
    → ((count_remediation o c).total ≡ c.total)
      × ((count_remediation o c).successful ≡ c.successful)
      × ((count_remediation o c).failed ≡ c.failed)
unfolding count_remediation
count_remediation-statuses none c = (refl, refl, refl)
count_remediation-statuses (some r) c = (refl, refl, refl)

count_by-cons :
    (p : ResultEntry → Bool) (e : ResultEntry) (es : List ResultEntry)
    → count_by p (e ∷ es) ≡ one_if (p e) + count_by p es
count_by-cons p e es = ground arith

count_by-failing :
    (e : ResultEntry) (es : List ResultEntry)
    → count_by is_fail (e ∷ es) ≡ one_if (is_failure_status e.status) + count_by is_fail es
unfolding is_fail
count_by-failing e es = count_by-cons is_fail e es

-- The counts of the outcomes.
count_entries-statuses :
    (es : List ResultEntry) (c : Totals)
    → ((count_entries es c).total ≡ c.total + count_by is_run es)
      × ((count_entries es c).successful ≡ c.successful + count_by is_pass es)
      × ((count_entries es c).failed ≡ c.failed + count_by is_fail es)
unfolding count_entries
count_entries-statuses [] c = (omega arith, omega arith, omega arith)
count_entries-statuses (e ∷ es) c =
    let c' = count_remediation e.remediation c in
    let (t, s, f) = count_entries-statuses es (count_status e.status c') in
    let (t', s', f') = count_status-statuses e.status c' in
    let (t'', s'', f'') = count_remediation-statuses e.remediation c in
    (
      omega (arith, t, t', t'', count_by-cons is_run e es),
      omega (arith, s, s', s'', count_by-cons is_pass e es),
      omega (arith, f, f', f'', count_by-failing e es),
    )

count_status-remediations :
    (status : String) (c : Totals)
    → ((count_status status c).remediations ≡ c.remediations)
      × ((count_status status c).remediations_verified ≡ c.remediations_verified)
      × ((count_status status c).remediations_cost ≡ c.remediations_cost)
unfolding count_status is_failure_status
count_status-remediations status c = (ground arith, ground arith, ground arith)

tests_one : (RemediationOutcome → Bool) → Option RemediationOutcome → Bool
tests_one p o = elim o [ none ↦ false | some r ↦ p r ]

count_remediation-remediations :
    (o : Option RemediationOutcome) (c : Totals)
    → ((count_remediation o c).remediations ≡ c.remediations + one_if (tests_one attempted o))
      × ((count_remediation o c).remediations_verified
          ≡ c.remediations_verified + one_if (tests_one succeeded o))
      × ((count_remediation o c).remediations_cost ≡ c.remediations_cost + paid_for o)
unfolding count_remediation tests_one
count_remediation-remediations none c = (omega arith, omega arith, omega arith)
count_remediation-remediations (some r) c = (refl, refl, ground arith)

count_by-tests :
    (p : RemediationOutcome → Bool) (e : ResultEntry) (es : List ResultEntry)
    → count_by (tests_outcome p) (e ∷ es)
      ≡ one_if (tests_one p e.remediation) + count_by (tests_outcome p) es
unfolding tests_one
count_by-tests p e es = count_by-cons (tests_outcome p) e es

-- What the remediations add.
count_entries-remediations :
    (es : List ResultEntry) (c : Totals)
    → ((count_entries es c).remediations ≡ c.remediations + count_by (tests_outcome attempted) es)
      × ((count_entries es c).remediations_verified
          ≡ c.remediations_verified + count_by (tests_outcome succeeded) es)
      × ((count_entries es c).remediations_cost ≡ c.remediations_cost + cost_of_all es)
unfolding count_entries cost_of_all
count_entries-remediations [] c = (omega arith, omega arith, omega arith)
count_entries-remediations (e ∷ es) c =
    let c' = count_remediation e.remediation c in
    let (r, v, p) = count_entries-remediations es (count_status e.status c') in
    let (r', v', p') = count_status-remediations e.status c' in
    let (r'', v'', p'') = count_remediation-remediations e.remediation c in
    (
      omega (arith, r, r', r'', count_by-tests attempted e es),
      omega (arith, v, v', v'', count_by-tests succeeded e es),
      omega (arith, p, p', p''),
    )

-- The sums of a report are counts over the entries of the runs that started in the 24 hours before
-- `now`: the tests are the entries that were not skipped, the successful ones those that passed, the
-- failed ones those with the status of a failure; the remediations are those that were attempted, or as
-- many as the saved snapshot had if these are more; the verified ones are those that succeeded, and the
-- cost is the sum over the attempted ones.
pub compute-recent :
    (runs : History) (now stale_after_seconds : ℕ) (validation : Option ValidationReport)
    (remediations_24h : ℕ)
    → let r = compute runs now stale_after_seconds validation remediations_24h in
      let es = recent_entries now runs in
      (r.total_tests_24h ≡ count_by is_run es)
      × (r.successful_tests_24h ≡ count_by is_pass es)
      × (r.failed_tests_24h ≡ count_by is_fail es)
      × (r.total_remediations_24h ≡ max (count_by (tests_outcome attempted) es) remediations_24h)
      × (r.remediations_verified_24h ≡ count_by (tests_outcome succeeded) es)
      × (r.remediations_cost_usd_24h ≡ cost_of_all es)
unfolding compute
compute-recent runs now stale_after_seconds validation remediations_24h =
    let (t, s, f) = count_entries-statuses (recent_entries now runs) no_totals in
    let (r, v, p) = count_entries-remediations (recent_entries now runs) no_totals in
    let tried : (count_entries (recent_entries now runs) no_totals).remediations
        ≡ count_by (tests_outcome attempted) (recent_entries now runs) =
      omega (arith, r) in
    rw (count_runs-recent_entries now runs no_totals) (
      omega (arith, t),
      omega (arith, s),
      omega (arith, f),
      ap (λ (n : ℕ). max n remediations_24h) tried,
      omega (arith, v),
      omega (arith, p),
    )
