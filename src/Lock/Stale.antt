-- ===== src/Lock/Stale.antt =====
-- src/lock.rs: two processes at a lock file that is stale, or that is not written yet.
use automated_flywheel_setup.Base.{
  ℕ, suc, ◌≡◌, ◌≢◌, refl, ap, Bool, true, false, Option, none, some, List, [], ◌∷◌, arith,
  if◌then◌else◌, map,
}
use automated_flywheel_setup.Lock.{
  Content, owned_by, Place, outside, holding, System, pid_alive, call, on_holder, step,
  run_schedule,
}

-- The places of two processes, and the file.
abbrev View : Type 0
View = Place × Place × Option Content

module _ (alive : ℕ → Bool) (p q : ℕ) where
  abbrev Shows : System → View → Type 0
  Shows s (pp, pq, f) = (s.place p ≡ pp) × (s.place q ≡ pq) × (s.file ≡ f)

  -- `true` is a step of `p`, `false` one of `q`.
  abbrev stepper : Bool → ℕ
  stepper b = if b then p else q

  view_step : View → Bool → View
  view_step (pp, pq, f) true = ((call alive p pp f).0, pq, (call alive p pp f).1)
  view_step (pp, pq, f) false = (pp, (call alive q pq f).0, (call alive q pq f).1)

  view_run : View → List Bool → View
  unfolding view_step call on_holder
  view_run v [] = v
  view_run v (b ∷ bs) = view_run (view_step v b) bs

  step-Shows :
      (s : System) (v : View) (b : Bool)
      → p ≢ q
      → Shows s v
      → Shows (step alive s (stepper b)) (view_step v b)
  unfolding step view_step
  step-Shows s (pp, pq, f) true apart (hp, hq, hf) =
      let same : call alive p (s.place p) s.file ≡ call alive p pp f = rw (hp, hf) refl in
      (ground arith, ground arith, ap (λ x. x.1) same)
  step-Shows s (pp, pq, f) false apart (hp, hq, hf) =
      let same : call alive q (s.place q) s.file ≡ call alive q pq f = rw (hq, hf) refl in
      (ground arith, ground arith, ap (λ x. x.1) same)

  run_schedule-Shows :
      (s : System) (v : View) (bs : List Bool)
      → p ≢ q
      → Shows s v
      → Shows (run_schedule alive s (map stepper bs)) (view_run v bs)
  unfolding run_schedule view_run
  run_schedule-Shows s v [] apart h = h
  run_schedule-Shows s v (b ∷ bs) apart h =
      run_schedule-Shows (step alive s (stepper b)) (view_step v b) bs apart
        (step-Shows s v b apart h)

  abbrev both_outside : Option Content → View
  both_outside file = (outside, outside, file)

  -- `p` and `q` both read the stale file; `q` removes it, creates its own and has the lock; then `p`
  -- removes the file of `q` and creates its own.
  abbrev pub both_reclaim : List ℕ
  both_reclaim = p ∷ p ∷ p ∷ q ∷ q ∷ q ∷ q ∷ q ∷ q ∷ p ∷ p ∷ p ∷ []

  -- `p` creates the file; `q` reads it before `p` has written its number, takes it for stale, removes it
  -- and creates its own; then `p` writes.
  abbrev pub before_write : List ℕ
  before_write = p ∷ p ∷ q ∷ q ∷ q ∷ q ∷ q ∷ q ∷ p ∷ []

  -- A lock file that names a dead process: two processes that begin outside both hold the lock at the
  -- end of a schedule in which the removal of one hits the new file of the other.
  pub run_schedule-both_reclaim :
      (s : System) (dead : ℕ)
      → p ≢ q
      → s.file ≡ some (owned_by dead)
      → pid_alive alive dead ≡ false
      → s.place p ≡ outside
      → s.place q ≡ outside
      → ((run_schedule alive s both_reclaim).place p ≡ holding)
        × ((run_schedule alive s both_reclaim).place q ≡ holding)
  unfolding view_run
  run_schedule-both_reclaim s dead apart file is_dead at_p at_q =
      let (hp, hq, hf) =
        run_schedule-Shows s (both_outside (some (owned_by dead)))
          (true ∷ true ∷ true ∷ false ∷ false ∷ false ∷ false ∷ false ∷ false ∷ true ∷ true ∷ true
            ∷ [])
          apart (at_p, at_q, file) in
      (simp is_dead at hp, simp is_dead at hq)

  -- No lock file at all: two processes that begin outside both hold the lock at the end of a schedule in
  -- which one of them reads the file between its creation and the write.
  pub run_schedule-before_write :
      (s : System)
      → p ≢ q
      → s.file ≡ none
      → s.place p ≡ outside
      → s.place q ≡ outside
      → ((run_schedule alive s before_write).place p ≡ holding)
        × ((run_schedule alive s before_write).place q ≡ holding)
  unfolding view_run
  run_schedule-before_write s apart file at_p at_q =
      let (hp, hq, hf) =
        run_schedule-Shows s (both_outside none)
          (true ∷ true ∷ false ∷ false ∷ false ∷ false ∷ false ∷ false ∷ true ∷ []) apart
          (at_p, at_q, file) in
      (hp, hq)

-- To the start, open, read, remove, open again, write.
abbrev pub alone : ℕ → List ℕ
alone p = p ∷ p ∷ p ∷ p ∷ p ∷ p ∷ []

-- A lock file that names a dead process: alone, a process that begins outside gets the lock in six
-- steps, and the file names it.
run_schedule-reclaims :
    (alive : ℕ → Bool) (s : System) (p dead : ℕ)
    → s.file ≡ some (owned_by dead)
    → pid_alive alive dead ≡ false
    → s.place p ≡ outside
    → ((run_schedule alive s (alone p)).place p ≡ holding)
      × ((run_schedule alive s (alone p)).file ≡ some (owned_by p))
unfolding view_run
run_schedule-reclaims alive s p dead file is_dead at_p =
    let (hp, hq, hf) =
      run_schedule-Shows alive p (suc p) s (outside, s.place (suc p), some (owned_by dead))
        (true ∷ true ∷ true ∷ true ∷ true ∷ true ∷ []) (λ e. absurd (omega arith))
        (at_p, refl, file) in
    (simp is_dead at hp, ground arith)
