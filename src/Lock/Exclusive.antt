-- ===== src/Lock/Exclusive.antt =====
-- src/lock.rs: as long as the lock file names a live process, nobody else gets the lock.
use automated_flywheel_setup.Base.{
  ℕ, ◌≡◌, ◌≢◌, refl, ap, ◌∙◌, Bool, true, false, some, List, [], ◌∷◌, arith, All,
}
use automated_flywheel_setup.Lock.{
  owned_by, Place, outside, opening, reading, holding, refused, reporting, System, pid_alive, call,
  on_holder, step, run_schedule,
}

-- A place from which a process does not change the file before it looks at it again.
abbrev pub is_harmless : Place → Bool
is_harmless outside = true
is_harmless (opening left) = true
is_harmless (reading left) = true
is_harmless (refused h) = true
is_harmless reporting = true
is_harmless _ = false

module _ (alive : ℕ → Bool) (h : ℕ) where
  -- The file names `h`, and the others are harmless.
  abbrev pub IsOwned : System → Type 0
  IsOwned s = (s.file ≡ some (owned_by h)) × ((q : ℕ) → q ≢ h → is_harmless (s.place q) ≡ true)

  call-harmless :
      (pid : ℕ) (p : Place)
      → pid_alive alive h ≡ true
      → is_harmless p ≡ true
      → (is_harmless (call alive pid p (some (owned_by h))).0 ≡ true)
        × ((call alive pid p (some (owned_by h))).1 ≡ some (owned_by h))
  unfolding call on_holder
  call-harmless pid p lives harmless = (ground arith, ground arith)

  step-IsOwned :
      (s : System) (pid : ℕ)
      → pid_alive alive h ≡ true
      → pid ≢ h
      → IsOwned s
      → IsOwned (step alive s pid) × ((step alive s pid).place h ≡ s.place h)
  unfolding step
  step-IsOwned s pid lives other (file, places) =
      let (harmless, kept) = after_call in
      ((kept, λ q o. let before = places q o in ground arith), ground arith)
    where
      after_call :
          (is_harmless (call alive pid (s.place pid) s.file).0 ≡ true)
          × ((call alive pid (s.place pid) s.file).1 ≡ some (owned_by h))
      after_call = rw file (call-harmless pid (s.place pid) lives (places pid other))

  run_schedule-IsOwned :
      (s : System) (pids : List ℕ)
      → pid_alive alive h ≡ true
      → All (λ pid. pid ≢ h) pids
      → IsOwned s
      → IsOwned (run_schedule alive s pids) × ((run_schedule alive s pids).place h ≡ s.place h)
  unfolding run_schedule
  run_schedule-IsOwned s [] lives others owned = (owned, refl)
  run_schedule-IsOwned s (pid ∷ pids) lives (other, others) owned =
      let (next, stays) = step-IsOwned s pid lives other owned in
      let (final, still) = run_schedule-IsOwned (step alive s pid) pids lives others next in
      (final, still ∙ stays)

  -- While the lock file names the live process `h` and `h` does not step, any number of processes that
  -- begin outside take any steps in any order, and none of them ever holds the lock.
  pub run_schedule-exclusive :
      (s : System) (pids : List ℕ)
      → pid_alive alive h ≡ true
      → All (λ pid. pid ≢ h) pids
      → s.file ≡ some (owned_by h)
      → ((q : ℕ) → q ≢ h → s.place q ≡ outside)
      → ((run_schedule alive s pids).file ≡ some (owned_by h))
        × ((q : ℕ) → q ≢ h → (run_schedule alive s pids).place q ≢ holding)
  run_schedule-exclusive s pids lives others file begin =
      let (owned, still) =
        run_schedule-IsOwned s pids lives others (file, λ q o. ap is_harmless (begin q o)) in
      (owned.0, λ q o e. absurd (cc (owned.1 q o, e)))
