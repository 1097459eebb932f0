-- ===== src/Lock.antt =====
-- src/lock.rs: the run lock. Each system call is one atomic step of a process on the lock file, so
-- that an interleaving of processes is a list of process numbers.
pub mod Exclusive
pub mod Stale
mod Tests
use automated_flywheel_setup.Base.{
  ℕ, Bool, true, false, ◌&&◌, not, Option, none, some, List, [], ◌∷◌, eqb, ltb, zero, suc,
  if◌then◌else◌,
}

-- What the lock file holds: nothing yet, as between its creation by a process and the write; no number
-- on its first line; or the number of a process.
pub data Content : Type 0 where
  unwritten : (creator : ℕ) → Content
  garbage : Content
  owned_by : ℕ → Content

-- Where a process is in `try_acquire`, with the rounds of the loop that are left behind this one.
pub data Place : Type 0 where
  outside : Place
  -- about to open with `create_new`
  opening : (left : ℕ) → Place
  -- the file exists: about to read the holder
  reading : (left : ℕ) → Place
  -- the holder is stale: about to remove the file
  removing : (left : ℕ) → Place
  -- created the file: about to write its number
  writing : Place
  -- returned a `RunLock`
  holding : Place
  -- returned the holder
  refused : ℕ → Place
  -- lost twice: about to read whoever holds it
  reporting : Place

pub record System : Type 0 where
  pub file : Option Content
  pub place : ℕ → Place

module _ (alive : ℕ → Bool) where
  -- `pid_alive`
  unfoldable pub pid_alive : ℕ → Bool
  pid_alive pid = if eqb pid 0 then false else alive pid

  -- The next round of the loop, or its end.
  abbrev pub next_round : ℕ → Place
  next_round zero = reporting
  next_round (suc left) = opening left

  -- `match holder`, on what `read_holder` found
  unfoldable pub on_holder : ℕ → Option Content → Place
  on_holder left (some (owned_by h)) = if pid_alive h then refused h else removing left
  on_holder left _ = removing left

  -- The holder that is reported behind the loop.
  abbrev pub reported : Option Content → ℕ
  reported (some (owned_by h)) = h
  reported _ = 0

  -- A write goes to the file that the process created, which may be gone from the path.
  abbrev pub written : ℕ → Option Content → Option Content
  written pid (some (unwritten creator)) =
      if eqb creator pid then some (owned_by pid) else some (unwritten creator)
  written pid file = file

  -- One system call of the process `pid` at a place, on the file at the path.
  unfoldable pub call : ℕ → Place → Option Content → Place × Option Content
  unfolding on_holder
  call pid outside file = (opening 1, file)
  call pid (opening left) none = (writing, some (unwritten pid))
  call pid (opening left) (some c) = (reading left, some c)
  call pid (reading left) file = (on_holder left file, file)
  call pid (removing left) file = (next_round left, none)
  call pid writing file = (holding, written pid file)
  call pid holding file = (outside, none)
  call pid (refused h) file = (refused h, file)
  call pid reporting file = (refused (reported file), file)

  unfoldable pub step : System → ℕ → System
  step s pid =
      let (place, file) = call pid (s.place pid) s.file in
      record { file = file; place = λ q. if eqb q pid then place else s.place q }

  unfoldable pub run_schedule : System → List ℕ → System
  run_schedule s [] = s
  run_schedule s (pid ∷ pids) = run_schedule (step s pid) pids
