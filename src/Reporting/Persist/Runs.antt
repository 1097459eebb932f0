-- ===== src/Reporting/Persist/Runs.antt =====
-- src/reporting/jsonl.rs: the runs of the results directory, `list_runs`, `find_run` and `prune`. The
-- directory is the list of its entries; a path is the file's name, since all are in one directory.
use text.Mathlib.Text.{starts_with}
use automated_flywheel_setup.Base.{
  ℕ, zero, suc, String, Bool, false, not, ◌&&◌, ◌||◌, Option, none, some, List, [], ◌∷◌, length,
  drop, keep, as_bytes, ends_with, ◌==ₛ◌, ltb, eqb, if◌then◌else◌,
}
use automated_flywheel_setup.Reporting.Diff.{bytes_ltb}
use automated_flywheel_setup.Reporting.Persist.{RunHeader, RunSummaryEntry}
use automated_flywheel_setup.Reporting.Persist.File.{Json, RunFile, read_run_file}

pub record RunInfo : Type 0 where
  pub path : String
  pub run_id : String
  pub started_at : ℕ
  pub total : ℕ
  pub passed : ℕ
  pub failed : ℕ
  pub interrupted : Bool

-- An entry of the directory: its text, if it can be read, and `started_at_from_path`.
pub record Stored : Type 0 where
  pub path : String
  pub content : Option String
  pub stamp : ℕ

-- The filter of `result_files`
unfoldable pub is_results_file : String → Bool
is_results_file name = starts_with name "results_" && ends_with name ".jsonl"

abbrev pub identity_of : Stored → RunFile → Option RunHeader → Option RunSummaryEntry → String × ℕ
identity_of f file (some h) _ = (h.run_id, h.started_at)
identity_of f file none (some s) = (s.run_id, s.timestamp_start)
identity_of f file none none = ("", f.stamp)

abbrev pub counts_of : RunFile → Option RunSummaryEntry → RunInfo → RunInfo
counts_of file (some s) r = record r {
  total = s.total;
  passed = s.passed;
  failed = s.failed;
  interrupted = s.interrupted;
}
counts_of file none r = record r {
  total = length file.entries;
  passed = 0;
  failed = 0;
  interrupted = false;
}

-- One round of `list_runs`, for a file that was read.
unfoldable pub run_info : Stored → RunFile → RunInfo
run_info f file =
    let (run_id, started_at) = identity_of f file file.header file.summary in
    counts_of file file.summary (record {
      path = f.path;
      run_id = run_id;
      started_at = started_at;
      total = 0;
      passed = 0;
      failed = 0;
      interrupted = false;
    })

abbrev pub push_info : Json → Stored → Option String → List RunInfo → List RunInfo
push_info j f none runs = runs
push_info j f (some text) runs = run_info f (read_run_file j text) ∷ runs

unfoldable pub infos : Json → List Stored → List RunInfo
unfolding run_info
infos j [] = []
infos j (f ∷ files) =
    let runs = infos j files in
    if is_results_file f.path then push_info j f f.content runs else runs

-- Whether a run comes before another: a later start, or the same and a greater path.
unfoldable pub is_before : RunInfo → RunInfo → Bool
is_before a b =
    ltb b.started_at a.started_at
    || eqb b.started_at a.started_at && bytes_ltb (as_bytes b.path) (as_bytes a.path)

-- A stable sort: a run goes before the first that does not come before it.
unfoldable pub insert_run : RunInfo → List RunInfo → List RunInfo
insert_run r [] = r ∷ []
insert_run r (x ∷ xs) =
    let later = insert_run r xs in if is_before x r then x ∷ later else r ∷ x ∷ xs

unfoldable pub sort_runs : List RunInfo → List RunInfo
sort_runs [] = []
sort_runs (r ∷ runs) = insert_run r (sort_runs runs)

-- `list_runs`
unfoldable pub list_runs : Json → List Stored → List RunInfo
unfolding infos sort_runs
list_runs j files = sort_runs (infos j files)

abbrev pub first_run : List RunInfo → Option RunInfo
first_run [] = none
first_run (r ∷ _) = some r

unfoldable pub find_prefix : String → List RunInfo → Option RunInfo
find_prefix prefix [] = none
find_prefix prefix (r ∷ runs) =
    let later = find_prefix prefix runs in if starts_with r.run_id prefix then some r else later

-- `find_run`; `is_last` is `prefix.eq_ignore_ascii_case("last")`
unfoldable pub find_run : Json → Bool → String → List Stored → Option RunInfo
unfolding list_runs find_prefix
find_run j is_last prefix files =
    if is_last then first_run (list_runs j files) else find_prefix prefix (list_runs j files)

-- `remove_file` of a path
abbrev pub without : String → List Stored → List Stored
without path files = keep (λ f. not (path ==ₛ f.path)) files

-- The loop of `prune`: `none` if a file cannot be removed, which ends it.
unfoldable pub remove_runs :
    (String → Bool) → List RunInfo → ℕ → List Stored → Option ℕ × List Stored
remove_runs removable [] deleted files = (some deleted, files)
remove_runs removable (r ∷ runs) deleted files =
    let rest = remove_runs removable runs (suc deleted) (without r.path files) in
    if removable r.path then rest else (none, files)

-- `prune`
unfoldable pub prune : Json → (String → Bool) → ℕ → List Stored → Option ℕ × List Stored
unfolding list_runs remove_runs
prune j removable zero files = (some 0, files)
prune j removable (suc n) files = remove_runs removable (drop (suc n) (list_runs j files)) 0 files
