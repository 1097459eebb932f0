-- ===== src/Reporting/Metrics/Health.antt =====
-- src/reporting/metrics.rs: what the health of a report tells of the runs in the results directory.
use automated_flywheel_setup.Base.{
  ℕ, zero, suc, ◌-◌, ◌/◌, ◌^◌, ◌≤◌, ◌<◌, String, ◌≡◌, ◌↔◌, refl, ap, Option, none, some, List, [],
  ◌∷◌, take, All, Among, arith, inl, inr,
}
use automated_flywheel_setup.Reporting.Persist.File.{Json}
use automated_flywheel_setup.Reporting.Persist.Runs.{RunInfo, Stored, list_runs}
use automated_flywheel_setup.Reporting.Persist.Retention.{
  StartedBy, IsNewestFirst, list_runs-IsNewestFirst,
}
use automated_flywheel_setup.Reporting.Loaded.{
  LoadedRun, History, content_of, push_run, load_infos, load_recent,
}
use automated_flywheel_setup.Reporting.Metrics.{
  healthy, ValidationReport, age_seconds, health_of, compute,
}

abbrev LoadedBy : RunInfo → LoadedRun → Type 0
LoadedBy r x = StartedBy r x.info

-- Each loaded run started no earlier than those behind it.
abbrev IsLoadedInOrder : History → Type 0
IsLoadedInOrder [] = Unit {0}
IsLoadedInOrder (r ∷ runs) = All (LoadedBy r.info) runs × IsLoadedInOrder runs

-- The run started at most that many whole seconds ago.
abbrev pub IsRecent : (now stale_after_seconds : ℕ) → LoadedRun → Type 0
IsRecent now stale_after_seconds r = (now - r.info.started_at) / 1_000_000_000 ≤ stale_after_seconds

take-All :
    (r : RunInfo) (n : ℕ) (infos : List RunInfo)
    → All (StartedBy r) infos
    → All (StartedBy r) (take n infos)
take-All r zero infos h = tt
take-All r (suc n) [] h = tt
take-All r (suc n) (x ∷ xs) (h, hs) = (h, take-All r n xs hs)

take-IsNewestFirst :
    (n : ℕ) (infos : List RunInfo) → IsNewestFirst infos → IsNewestFirst (take n infos)
take-IsNewestFirst zero infos h = tt
take-IsNewestFirst (suc n) [] h = tt
take-IsNewestFirst (suc n) (x ∷ xs) (h, hs) = (take-All x n xs h, take-IsNewestFirst n xs hs)

module _ (j : Json) (files : List Stored) where
  push_run-All :
      (r info : RunInfo) (o : Option String) (runs : History)
      → StartedBy r info
      → All (LoadedBy r) runs
      → All (LoadedBy r) (push_run j info o runs)
  push_run-All r info none runs h hs = hs
  push_run-All r info (some text) runs h hs = (h, hs)

  load_infos-All :
      (r : RunInfo) (infos : List RunInfo)
      → All (StartedBy r) infos
      → All (LoadedBy r) (load_infos j files infos)
  unfolding load_infos
  load_infos-All r [] h = tt
  load_infos-All r (x ∷ xs) (h, hs) =
      push_run-All r x (content_of x.path files) (load_infos j files xs) h (load_infos-All r xs hs)

  push_run-IsLoadedInOrder :
      (info : RunInfo) (o : Option String) (runs : History)
      → All (LoadedBy info) runs
      → IsLoadedInOrder runs
      → IsLoadedInOrder (push_run j info o runs)
  push_run-IsLoadedInOrder info none runs h hs = hs
  push_run-IsLoadedInOrder info (some text) runs h hs = (h, hs)

  load_infos-IsLoadedInOrder :
      (infos : List RunInfo) → IsNewestFirst infos → IsLoadedInOrder (load_infos j files infos)
  unfolding load_infos
  load_infos-IsLoadedInOrder [] h = tt
  load_infos-IsLoadedInOrder (x ∷ xs) (h, hs) =
      push_run-IsLoadedInOrder x (content_of x.path files) (load_infos j files xs)
        (load_infos-All x xs h) (load_infos-IsLoadedInOrder xs hs)

  load_recent-IsLoadedInOrder : (limit : ℕ) → IsLoadedInOrder (load_recent j files limit)
  unfolding load_recent list_runs
  load_recent-IsLoadedInOrder limit =
      load_infos-IsLoadedInOrder (take limit (list_runs j files))
        (take-IsNewestFirst limit (list_runs j files) (list_runs-IsNewestFirst j files))

-- With a threshold that fits an `i64`, the test on the age is that of the whole seconds.
health_of-healthy :
    (now stale_after_seconds t : ℕ)
    → stale_after_seconds < 2 ^ 63
    → (health_of stale_after_seconds (some (age_seconds now t)) ≡ healthy)
      ↔ ((now - t) / 1_000_000_000 ≤ stale_after_seconds)
unfolding health_of age_seconds
health_of-healthy now stale_after_seconds t small = (λ h. ground arith, λ h. ground arith)

IsRecent-latest :
    (now stale_after_seconds : ℕ) (r : LoadedRun) (runs : History)
    → All (LoadedBy r.info) runs
    → (x : LoadedRun) → Among x runs
    → IsRecent now stale_after_seconds x
    → IsRecent now stale_after_seconds r
IsRecent-latest now stale_after_seconds r [] h x among recent = absurd among
IsRecent-latest now stale_after_seconds r (y ∷ runs) (h, hs) x (inl e) recent =
    let same : x.info.started_at ≡ y.info.started_at =
      ap (λ (z : LoadedRun). z.info.started_at) e in
    omega arith
IsRecent-latest now stale_after_seconds r (y ∷ runs) (h, hs) x (inr later) recent =
    IsRecent-latest now stale_after_seconds r runs hs x later recent

healthy_iff :
    (runs : History) (now stale_after_seconds : ℕ) (validation : Option ValidationReport)
    (remediations_24h : ℕ)
    → stale_after_seconds < 2 ^ 63
    → IsLoadedInOrder runs
    → ((compute runs now stale_after_seconds validation remediations_24h).health ≡ healthy)
      ↔ ((r : LoadedRun) × Among r runs × IsRecent now stale_after_seconds r)
unfolding compute health_of
healthy_iff [] now stale_after_seconds validation remediations_24h small order =
    (λ h. ground arith, λ (r, among, recent). absurd among)
healthy_iff (r ∷ runs) now stale_after_seconds validation remediations_24h small (first, order) =
    let (to, from) = health_of-healthy now stale_after_seconds r.info.started_at small in
    (λ h. (r, inl refl, to h), λ (x, among, recent). from (recent_first x among recent))
  where
    recent_first :
        (x : LoadedRun)
        → Among x (r ∷ runs)
        → IsRecent now stale_after_seconds x
        → IsRecent now stale_after_seconds r
    recent_first x (inl e) recent =
        IsRecent-latest now stale_after_seconds r (r ∷ []) (omega arith, tt) x (inl e) recent
    recent_first x (inr later) recent =
        IsRecent-latest now stale_after_seconds r runs first x later recent

-- For a threshold below 2^63 seconds, the health that is computed from the newest runs of the results
-- directory, as many as the limit allows, is ok exactly if one of the runs that were loaded started at
-- most the threshold ago, in whole seconds.
pub compute-healthy_iff :
    (j : Json) (files : List Stored) (limit now stale_after_seconds : ℕ)
    (validation : Option ValidationReport) (remediations_24h : ℕ)
    → stale_after_seconds < 2 ^ 63
    → ((compute
          (load_recent j files limit)
          now
          stale_after_seconds
          validation
          remediations_24h).health
        ≡ healthy)
      ↔ ((r : LoadedRun) × Among r (load_recent j files limit) × IsRecent now stale_after_seconds r)
compute-healthy_iff j files limit now stale_after_seconds validation remediations_24h small =
    healthy_iff (load_recent j files limit) now stale_after_seconds validation remediations_24h
      small (load_recent-IsLoadedInOrder j files limit)
