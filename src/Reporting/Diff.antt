-- ===== src/Reporting/Diff.antt =====
-- src/reporting/history.rs: `diff_runs`, the changes between two runs.
pub mod Compared
mod Tests
use automated_flywheel_setup.Base.{
  ℕ, suc, ◌+◌, String, Bool, true, false, not, ◌&&◌, Option, none, some, List, [], ◌∷◌, ◌++◌, map,
  ◌==ₛ◌, as_bytes, ltb, map_option, if◌then◌else◌,
}
use automated_flywheel_setup.Reporting.History.{is_failure_status}

-- What the comparison reads of a `ResultEntry`.
pub record ResultEntry : Type 0 where
  pub installer_name : String
  pub status : String
  pub category : Option String

-- What it reads of a `LoadedRun`.
pub record LoadedRun : Type 0 where
  pub run_id : String
  pub started_at : ℕ
  pub entries : List ResultEntry

-- `LoadedRun::entry`
unfoldable pub entry : List ResultEntry → String → Option ResultEntry
entry [] installer = none
entry (e ∷ entries) installer =
    let later = entry entries installer in if e.installer_name ==ₛ installer then some e else later

-- `regressed | recovered | changed | added | removed`, as text in the source
pub data Change : Type 0 where
  regressed recovered changed added removed : Change

unfoldable pub change_text : Change → String
change_text regressed = "regressed"
change_text recovered = "recovered"
change_text changed = "changed"
change_text added = "added"
change_text removed = "removed"

pub record DiffEntry : Type 0 where
  pub installer : String
  pub before : Option String
  pub after : Option String
  pub category_before : Option String
  pub category_after : Option String
  pub change : Change

pub record RunDiff : Type 0 where
  pub from_run : String
  pub to_run : String
  pub from_started_at : ℕ
  pub to_started_at : ℕ
  pub changes : List DiffEntry
  pub unchanged : ℕ

-- `==` of two options of texts
abbrev pub same_option : Option String → Option String → Bool
same_option none none = true
same_option (some a) (some b) = a ==ₛ b
same_option _ _ = false

-- One round of the loop: an installer that did not change, that neither run has, or a change.
pub data Verdict : Type 0 where
  same : Verdict
  absent : Verdict
  differs : Change → Verdict

unfoldable pub compare_entries : Option ResultEntry → Option ResultEntry → Verdict
compare_entries none (some y) = differs added
compare_entries (some x) none = differs removed
compare_entries none none = absent
compare_entries (some x) (some y) =
    let was_failing = is_failure_status x.status in
    let is_failing = is_failure_status y.status in
    if x.status ==ₛ y.status && same_option x.category y.category
    then same
    else if not was_failing && is_failing
    then differs regressed
    else if was_failing && not is_failing
    then differs recovered
    else differs changed

abbrev pub status_of : Option ResultEntry → Option String
status_of o = map_option (λ e. e.status) o

-- `and_then(category_of)`
abbrev pub category_of : Option ResultEntry → Option String
category_of none = none
category_of (some e) = e.category

abbrev pub add_verdict :
    String
    → Option ResultEntry
    → Option ResultEntry
    → Verdict
    → List DiffEntry × ℕ
    → List DiffEntry × ℕ
add_verdict name a b same (changes, unchanged) = (changes, suc unchanged)
add_verdict name a b absent (changes, unchanged) = (changes, unchanged)
add_verdict name a b (differs change) (changes, unchanged) = (
  record {
    installer = name;
    before = status_of a;
    after = status_of b;
    category_before = category_of a;
    category_after = category_of b;
    change = change;
  }
      ∷ changes,
  unchanged,
)

-- The loop over the names, whose pushes come in their order.
unfoldable pub diff_names : List ResultEntry → List ResultEntry → List String → List DiffEntry × ℕ
diff_names from to [] = ([], 0)
diff_names from to (name ∷ names) =
    let a = entry from name in
    let b = entry to name in add_verdict name a b (compare_entries a b) (diff_names from to names)

-- `str`'s order, by bytes
unfoldable pub bytes_ltb : List ℕ → List ℕ → Bool
bytes_ltb xs [] = false
bytes_ltb [] (y ∷ ys) = true
bytes_ltb (x ∷ xs) (y ∷ ys) =
    let later = bytes_ltb xs ys in if ltb x y then true else if ltb y x then false else later

-- `BTreeSet::insert`
unfoldable pub insert : String → List String → List String
insert name [] = name ∷ []
insert name (n ∷ names) =
    let later = insert name names in
    if name ==ₛ n
    then n ∷ names
    else if bytes_ltb (as_bytes name) (as_bytes n)
    then name ∷ n ∷ names
    else n ∷ later

-- The set of the installers' names.
unfoldable pub names_of : List ResultEntry → List String
names_of [] = []
names_of (e ∷ entries) = insert e.installer_name (names_of entries)

unfoldable pub diff_runs : LoadedRun → LoadedRun → RunDiff
diff_runs from to =
    let (changes, unchanged) =
      diff_names from.entries to.entries (names_of (from.entries ++ to.entries)) in
    record {
      from_run = from.run_id;
      to_run = to.run_id;
      from_started_at = from.started_at;
      to_started_at = to.started_at;
      changes = changes;
      unchanged = unchanged;
    }
