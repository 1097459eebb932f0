-- ===== src/Checksums/Ledger.antt =====
-- src/checksums/ledger.rs: the index of an installer's scripts, a `BTreeMap` as the list of its values in
-- the order of their keys. The files of the scripts are left out.
pub mod Pruning
mod Tests
use automated_flywheel_setup.Base.{
  ℕ, ◌+◌, ◌-◌, String, Bool, true, false, not, Option, none, some, List, [], ◌∷◌, length, take,
  keep, any, leb, ltb, is_some, ◌==ₛ◌, as_bytes, if◌then◌else◌,
}
use automated_flywheel_setup.Reporting.Diff.{bytes_ltb}

-- `KEEP_PER_INSTALLER`
abbrev pub keep_per_installer : ℕ
keep_per_installer = 5

pub record LedgerEntry : Type 0 where
  pub sha256 : String
  pub size : ℕ
  pub first_seen : ℕ
  pub last_seen : ℕ
  pub last_verified_pass_run : Option String
  pub url : Option String

abbrev pub is_verified : LedgerEntry → Bool
is_verified e = is_some e.last_verified_pass_run

-- Whether an entry comes before another in `by_age`: unverified first, then by `last_seen`.
unfoldable pub is_older : LedgerEntry → LedgerEntry → Bool
is_older a b =
    if is_verified a
    then if is_verified b then ltb a.last_seen b.last_seen else false
    else if is_verified b
    then true
    else ltb a.last_seen b.last_seen

-- A stable sort: an entry goes before the first that is not older.
unfoldable pub insert_by_age : LedgerEntry → List LedgerEntry → List LedgerEntry
insert_by_age e [] = e ∷ []
insert_by_age e (x ∷ xs) =
    let later = insert_by_age e xs in if is_older x e then x ∷ later else e ∷ x ∷ xs

unfoldable pub sort_by_age : List LedgerEntry → List LedgerEntry
sort_by_age [] = []
sort_by_age (e ∷ entries) = insert_by_age e (sort_by_age entries)

-- `entries.remove` of each of the given entries' keys
unfoldable pub remove_all : List LedgerEntry → List LedgerEntry → List LedgerEntry
remove_all gone entries = keep (λ e. not (any (λ g. e.sha256 ==ₛ g.sha256) gone)) entries

-- `prune_index`
unfoldable pub prune_index : List LedgerEntry → List LedgerEntry
prune_index entries =
    if leb (length entries) keep_per_installer
    then entries
    else remove_all (take (length entries - keep_per_installer) (sort_by_age entries)) entries

-- `entry(sha).or_insert_with(fresh)`, and the change of the entry
unfoldable pub upsert :
    LedgerEntry → (LedgerEntry → LedgerEntry) → List LedgerEntry → List LedgerEntry
upsert fresh change [] = change fresh ∷ []
upsert fresh change (e ∷ entries) =
    let later = upsert fresh change entries in
    if e.sha256 ==ₛ fresh.sha256
    then change e ∷ entries
    else if bytes_ltb (as_bytes fresh.sha256) (as_bytes e.sha256)
    then change fresh ∷ e ∷ entries
    else e ∷ later

abbrev pub or_else : Option String → Option String → Option String
or_else none old = old
or_else (some new_one) old = some new_one

-- The assignments of `record`.
abbrev pub seen : ℕ → ℕ → Option String → Option String → LedgerEntry → LedgerEntry
seen now size url run e = record e {
  last_seen = now;
  size = size;
  last_verified_pass_run = or_else run e.last_verified_pass_run;
  url = or_else url e.url;
}

abbrev pub fresh_entry : String → ℕ → ℕ → Option String → LedgerEntry
fresh_entry sha now size url = record {
  sha256 = sha;
  size = size;
  first_seen = now;
  last_seen = now;
  last_verified_pass_run = none;
  url = url;
}

-- `Ledger::record` on the index, for bytes with the hash `sha`
unfoldable pub record_script :
    String → ℕ → ℕ → Option String → Option String → List LedgerEntry → List LedgerEntry
unfolding prune_index upsert
record_script sha now size url run entries =
    prune_index (upsert (fresh_entry sha now size url) (seen now size url run) entries)

-- `mark_verified`: whether the script is stored, and the index.
unfoldable pub mark_verified : String → String → ℕ → List LedgerEntry → Bool × List LedgerEntry
mark_verified sha run_id now [] = (false, [])
mark_verified sha run_id now (e ∷ entries) =
    let (found, later) = mark_verified sha run_id now entries in
    if e.sha256 ==ₛ sha
    then (true, record e { last_verified_pass_run = some run_id; last_seen = now } ∷ entries)
    else (found, e ∷ later)
