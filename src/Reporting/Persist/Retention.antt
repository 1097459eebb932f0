-- ===== src/Reporting/Persist/Retention.antt =====
-- src/reporting/jsonl.rs: which results files `prune` keeps.
use mathlib.Core.Path.{subst}
use automated_flywheel_setup.Base.{
  ℕ, zero, suc, ◌+◌, ◌-◌, ◌≤◌, String, ◌≡◌, refl, sym, ap, ◌∙◌, Bool, true, false, not, Option,
  none, some, List, [], ◌∷◌, length, length-drop, take, drop, keep, All, Among, has_text, ◌==ₛ◌,
  eq_iff, Bool-cases, inl, inr, arith,
}
use automated_flywheel_setup.Reporting.Persist.{RunSummaryEntry}
use automated_flywheel_setup.Reporting.Persist.File.{Json, RunFile, read_run_file}
use automated_flywheel_setup.Reporting.Persist.Runs.{
  RunInfo, Stored, is_results_file, counts_of, run_info, push_info, infos, is_before, insert_run,
  sort_runs, list_runs, without, remove_runs, prune,
}

abbrev pub StartedBy : RunInfo → RunInfo → Type 0
StartedBy r x = x.started_at ≤ r.started_at

-- Each run started no earlier than those behind it.
abbrev pub IsNewestFirst : List RunInfo → Type 0
IsNewestFirst [] = Unit {0}
IsNewestFirst (r ∷ runs) = All (StartedBy r) runs × IsNewestFirst runs

abbrev pub HasResultsPath : RunInfo → Type 0
HasResultsPath r = is_results_file r.path ≡ true

module _ (P : RunInfo → Type 0) where
  insert_run-All :
      (r : RunInfo) (runs : List RunInfo) → P r → All P runs → All P (insert_run r runs)
  unfolding insert_run
  insert_run-All r [] h hs = (h, tt)
  insert_run-All r (x ∷ xs) h (hx, hs) = elim (Bool-cases (is_before x r)) [
    | inl before ↦ simp before (hx, insert_run-All r xs h hs)
    | inr behind ↦ simp behind (h, (hx, hs))
  ]

  sort_runs-All : (runs : List RunInfo) → All P runs → All P (sort_runs runs)
  unfolding sort_runs
  sort_runs-All [] h = tt
  sort_runs-All (r ∷ runs) (h, hs) = insert_run-All r (sort_runs runs) h (sort_runs-All runs hs)

  drop-All : (n : ℕ) (runs : List RunInfo) → All P runs → All P (drop n runs)
  drop-All zero runs h = h
  drop-All (suc n) [] h = h
  drop-All (suc n) (r ∷ runs) (h, hs) = drop-All n runs hs

is_before-started : (a b : RunInfo) → is_before a b ≡ true → b.started_at ≤ a.started_at
unfolding is_before
is_before-started a b h = ground arith

is_before-behind : (a b : RunInfo) → is_before a b ≡ false → a.started_at ≤ b.started_at
unfolding is_before
is_before-behind a b h = ground arith

started_trans :
    (r x : RunInfo) (runs : List RunInfo)
    → StartedBy r x
    → All (StartedBy x) runs
    → All (StartedBy r) runs
started_trans r x [] h hs = tt
started_trans r x (y ∷ runs) h (hy, hs) = (omega arith, started_trans r x runs h hs)

insert_run-IsNewestFirst :
    (r : RunInfo) (runs : List RunInfo) → IsNewestFirst runs → IsNewestFirst (insert_run r runs)
unfolding insert_run
insert_run-IsNewestFirst r [] h = (tt, tt)
insert_run-IsNewestFirst r (x ∷ xs) (hx, hs) = elim (Bool-cases (is_before x r)) [
  | inl before ↦ simp before (
    insert_run-All (StartedBy x) r xs (is_before-started x r before) hx,
    insert_run-IsNewestFirst r xs hs,
  )
  | inr behind ↦
      let later = is_before-behind x r behind in
      simp behind ((later, started_trans r x xs later hx), (hx, hs))
]

sort_runs-IsNewestFirst : (runs : List RunInfo) → IsNewestFirst (sort_runs runs)
unfolding sort_runs
sort_runs-IsNewestFirst [] = tt
sort_runs-IsNewestFirst (r ∷ runs) =
    insert_run-IsNewestFirst r (sort_runs runs) (sort_runs-IsNewestFirst runs)

counts_of-path :
    (file : RunFile) (s : Option RunSummaryEntry) (r : RunInfo) → (counts_of file s r).path ≡ r.path
counts_of-path file none r = refl
counts_of-path file (some _) r = refl

run_info-path : (f : Stored) (file : RunFile) → (run_info f file).path ≡ f.path
unfolding run_info
run_info-path f file = counts_of-path file file.summary _

infos-HasResultsPath : (j : Json) (files : List Stored) → All HasResultsPath (infos j files)
unfolding infos
infos-HasResultsPath j [] = tt
infos-HasResultsPath j (f ∷ files) = elim (Bool-cases (is_results_file f.path)) [
  | inl yes_it_is ↦ simp yes_it_is (pushed f.content yes_it_is (infos-HasResultsPath j files))
  | inr other ↦ simp other (infos-HasResultsPath j files)
]
  where
    pushed :
        (content : Option String)
        → is_results_file f.path ≡ true
        → All HasResultsPath (infos j files)
        → All HasResultsPath (push_info j f content (infos j files))
    pushed none h hs = hs
    pushed (some text) h hs = (ap is_results_file (run_info-path f (read_run_file j text)) ∙ h, hs)

list_runs-HasResultsPath : (j : Json) (files : List Stored) → All HasResultsPath (list_runs j files)
unfolding list_runs
list_runs-HasResultsPath j files =
    sort_runs-All HasResultsPath (infos j files) (infos-HasResultsPath j files)

pub list_runs-IsNewestFirst : (j : Json) (files : List Stored) → IsNewestFirst (list_runs j files)
unfolding list_runs
list_runs-IsNewestFirst j files = sort_runs-IsNewestFirst (infos j files)

abbrev pub paths_of : List RunInfo → List String
paths_of [] = []
paths_of (r ∷ runs) = r.path ∷ paths_of runs

-- The files whose paths are not among the given ones.
abbrev pub others : List String → List Stored → List Stored
others paths files = keep (λ f. not (has_text paths f.path)) files

others-without :
    (path : String) (paths : List String) (files : List Stored)
    → others paths (without path files) ≡ others (path ∷ paths) files
others-without path paths [] = refl
others-without path paths (f ∷ files) = elim (Bool-cases (path ==ₛ f.path)) [
  | inl same ↦ simp same (others-without path paths files)
  | inr other ↦ elim (Bool-cases (has_text paths f.path)) [
    | inl gone ↦ simp (other, gone) (others-without path paths files)
    | inr stays ↦ simp (other, stays) (ap (◌∷◌ f) (others-without path paths files))
  ]
]

others-none : (files : List Stored) → others [] files ≡ files
others-none [] = refl
others-none (f ∷ files) = ap (◌∷◌ f) (others-none files)

abbrev pub IsRemovable : (String → Bool) → RunInfo → Type 0
IsRemovable removable r = removable r.path ≡ true

remove_runs-others :
    (removable : String → Bool) (runs : List RunInfo) (deleted : ℕ) (files : List Stored)
    → All (IsRemovable removable) runs
    → remove_runs removable runs deleted files
      ≡ (some (deleted + length runs), others (paths_of runs) files)
unfolding remove_runs
remove_runs-others removable [] deleted files h =
    let same : deleted + 0 ≡ deleted = omega arith in rw (same, others-none files) refl
remove_runs-others removable (r ∷ runs) deleted files (here, later) =
    let same : suc deleted + length runs ≡ deleted + suc (length runs) = omega arith in
    simp here (
      remove_runs-others removable runs (suc deleted) (without r.path files) later
      ∙ ap (λ (n : ℕ). (some n, others (paths_of runs) (without r.path files))) same
      ∙ ap (λ (fs : List Stored). (some (deleted + suc (length runs)), fs))
          (others-without r.path (paths_of runs) files))

-- The runs in front started no earlier than those that are dropped.
take-drop :
    (n : ℕ) (runs : List RunInfo)
    → IsNewestFirst runs
    → All (λ kept. All (StartedBy kept) (drop n runs)) (take n runs)
take-drop zero runs h = tt
take-drop (suc n) [] h = tt
take-drop (suc n) (r ∷ runs) (h, hs) = (drop-All (StartedBy r) n runs h, take-drop n runs hs)

has_results_path :
    (runs : List RunInfo) (path : String)
    → All HasResultsPath runs
    → is_results_file path ≡ false
    → has_text (paths_of runs) path ≡ false
has_results_path [] path h other = refl
has_results_path (r ∷ runs) path (here, later) other = elim (Bool-cases (r.path ==ₛ path)) [
  | inl same ↦
      let e = (eq_iff r.path path).0 same in
      let both : is_results_file path ≡ true = ap is_results_file (sym e) ∙ here in absurd (cc)
  | inr differs ↦ simp differs (has_results_path runs path later other)
]

Among-others :
    (paths : List String) (f : Stored) (files : List Stored)
    → has_text paths f.path ≡ false
    → Among f files
    → Among f (others paths files)
Among-others paths f [] stays m = absurd m
Among-others paths f (g ∷ files) stays (inl e) =
    let kept : has_text paths g.path ≡ false = ap (λ h. has_text paths h.path) (sym e) ∙ stays in
    simp kept (inl e)
Among-others paths f (g ∷ files) stays (inr m) =
    let rest = Among-others paths f files stays m in
    elim (Bool-cases (has_text paths g.path)) [
      | inl gone ↦ simp gone rest
      | inr kept ↦ simp kept (inr rest)
    ]

-- The runs that `prune` removes with a limit of `n`.
abbrev pub excess : Json → ℕ → List Stored → List RunInfo
excess j n files = drop n (list_runs j files)

-- With a limit that is not 0, where every file can be removed, `prune` removes exactly the files of the
-- runs beyond the limit in the list, and tells their number; no run that it keeps started before one that
-- it removes; and a file whose name is not that of a results file stays.
pub prune-newest :
    (j : Json) (removable : String → Bool) (n : ℕ) (files : List Stored)
    → All (IsRemovable removable) (list_runs j files)
    → (prune j removable (suc n) files ≡ (
      some (length (list_runs j files) - suc n),
      others (paths_of (excess j (suc n) files)) files,
    ))
      × All
          (λ kept. All (StartedBy kept) (excess j (suc n) files))
          (take (suc n) (list_runs j files))
      × ((f : Stored)
          → is_results_file f.path ≡ false
          → Among f files
          → Among f (prune j removable (suc n) files).1)
unfolding prune
prune-newest j removable n files can =
    let runs = list_runs j files in
    let gone = excess j (suc n) files in
    let removed =
      remove_runs-others removable gone 0 files
        (drop-All (IsRemovable removable) (suc n) runs can) in
    let counted : 0 + length gone ≡ length runs - suc n = omega (arith, length-drop (suc n) runs) in
    let names = drop-All HasResultsPath (suc n) runs (list_runs-HasResultsPath j files) in
    (
      removed ∙ ap (λ (m : ℕ). (some m, others (paths_of gone) files)) counted,
      take-drop (suc n) runs (list_runs-IsNewestFirst j files),
      λ f other here.
          subst (λ fs. Among f fs) (sym (ap (λ r. r.1) removed))
            (Among-others (paths_of gone) f files (has_results_path gone f.path names other) here),
    )
