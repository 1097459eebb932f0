-- ===== src/Reporting/Diff/Compared.antt =====
-- src/reporting/history.rs: what the comparison of two runs says of each installer.
use automated_flywheel_setup.Base.{
  ℕ, String, ◌≡◌, Bool, true, false, not, ◌&&◌, ◌||◌, Option, none, some, List, map, keep, count_by,
  is_some, All,
}
use automated_flywheel_setup.Reporting.History.{is_failure_status}
use automated_flywheel_setup.Reporting.Diff.{
  ResultEntry, entry, Change, regressed, recovered, changed, added, removed, DiffEntry, same_option,
  Verdict, same, absent, differs, status_of, category_of,
}

-- What each word says of an installer's entries: where it stands, and which of the two fails.
abbrev pub Fits : Option ResultEntry → Option ResultEntry → Change → Type 0
Fits none (some y) added = Unit {0}
Fits (some x) none removed = Unit {0}
Fits (some x) (some y) regressed =
    (is_failure_status x.status ≡ false) × (is_failure_status y.status ≡ true)
Fits (some x) (some y) recovered =
    (is_failure_status x.status ≡ true) × (is_failure_status y.status ≡ false)
Fits (some x) (some y) changed = is_failure_status x.status ≡ is_failure_status y.status
Fits _ _ _ = ⊥

-- An entry of the comparison tells the statuses and the categories of its installer in the two runs, and
-- the word that fits.
pub record IsTold (from to : List ResultEntry) (d : DiffEntry) : Type 0 where
  pub before : d.before ≡ status_of (entry from d.installer)
  pub after : d.after ≡ status_of (entry to d.installer)
  pub category_before : d.category_before ≡ category_of (entry from d.installer)
  pub category_after : d.category_after ≡ category_of (entry to d.installer)
  pub word : Fits (entry from d.installer) (entry to d.installer) d.change

-- Status and category are the same.
abbrev pub is_same : Option ResultEntry → Option ResultEntry → Bool
is_same a b = same_option (status_of a) (status_of b) && same_option (category_of a) (category_of b)

abbrev pub is_unchanged : List ResultEntry → List ResultEntry → String → Bool
is_unchanged from to name = is_same (entry from name) (entry to name)

abbrev FitsVerdict : Option ResultEntry → Option ResultEntry → Verdict → Type 0
FitsVerdict a b same = is_same a b ≡ true
FitsVerdict a b absent = ⊥
FitsVerdict a b (differs c) = (is_same a b ≡ false) × Fits a b c

-- A comparison by names: its entries are told, they are those of the changed names, in their order, and the
-- others are counted.
pub record IsComparison (from to : List ResultEntry) (names : List String)
    (changes : List DiffEntry) (unchanged : ℕ) : Type 0 where
  pub told : All (IsTold from to) changes
  pub installers : map (λ d. d.installer) changes ≡ keep (λ n. not (is_unchanged from to n)) names
  pub counted : unchanged ≡ count_by (is_unchanged from to) names

-- The name stands in one of the runs.
abbrev IsNamed : List ResultEntry → List ResultEntry → String → Type 0
IsNamed from to name = is_some (entry from name) || is_some (entry to name) ≡ true

-- A run's own entries are found.
abbrev IsFound : List ResultEntry → String → Type 0
IsFound entries name = is_some (entry entries name) ≡ true
