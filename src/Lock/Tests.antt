-- ===== src/Lock/Tests.antt =====
-- The lock's theorems at concrete schedules: processes below 100 are alive, and process 500 is not.
use automated_flywheel_setup.Base.{ℕ, ◌≡◌, ◌≢◌, refl, Bool, Option, none, some, [], ◌∷◌, ltb, arith}
use automated_flywheel_setup.Lock.{
  Content, owned_by, outside, opening, holding, System, pid_alive, step, run_schedule, call,
}
use automated_flywheel_setup.Lock.Exclusive.{run_schedule-exclusive}
use automated_flywheel_setup.Lock.Stale.{
  both_reclaim, before_write, run_schedule-both_reclaim, run_schedule-before_write,
}

abbrev living : ℕ → Bool
living pid = ltb pid 100

abbrev starting : Option Content → System
starting file = record { file = file; place = λ q. outside }

first_step : (step living (starting none) 7).place 7 ≡ opening 1
unfolding step call
first_step = refl

run_schedule-exclusive_example :
    ((run_schedule living (starting (some (owned_by 7))) (8 ∷ 9 ∷ 8 ∷ [])).file ≡ some (owned_by 7))
    × ((q : ℕ)
        → q ≢ 7
        → (run_schedule living (starting (some (owned_by 7))) (8 ∷ 9 ∷ 8 ∷ [])).place q ≢ holding)
unfolding pid_alive
run_schedule-exclusive_example =
    run_schedule-exclusive living 7 (starting (some (owned_by 7))) (8 ∷ 9 ∷ 8 ∷ []) refl
      (λ e. absurd (omega arith), (λ e. absurd (omega arith), (λ e. absurd (omega arith), tt))) refl
      (λ q o. refl)

run_schedule-both_reclaim_example :
    ((run_schedule living (starting (some (owned_by 500))) (both_reclaim living 7 8)).place 7
      ≡ holding)
    × ((run_schedule living (starting (some (owned_by 500))) (both_reclaim living 7 8)).place 8
        ≡ holding)
unfolding pid_alive
run_schedule-both_reclaim_example =
    run_schedule-both_reclaim living 7 8 (starting (some (owned_by 500))) 500
      (λ e. absurd (omega arith)) refl refl refl refl

run_schedule-before_write_example :
    ((run_schedule living (starting none) (before_write living 7 8)).place 7 ≡ holding)
    × ((run_schedule living (starting none) (before_write living 7 8)).place 8 ≡ holding)
run_schedule-before_write_example =
    run_schedule-before_write living 7 8 (starting none) (λ e. absurd (omega arith)) refl refl refl
