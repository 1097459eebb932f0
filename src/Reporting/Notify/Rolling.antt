-- ===== src/Reporting/Notify/Rolling.antt =====
-- src/reporting/notify.rs: the rolling issue, in a repository whose issues only `github` touches.
use text.Mathlib.TextEquality.{starts_with_iff}
use text.Mathlib.TextLemmas.{append-nil}
use automated_flywheel_setup.Base.{
  ℕ, zero, suc, ◌+◌, ◌≤◌, String, ◌≡◌, refl, sym, take, length, length-append, ap, Bool, Bool-cases,
  true, false, not, Option, none, some, List, [], ◌∷◌, ◌++◌, contains, keep, count_by, All,
  All-append, arith, inl, inr,
}
use automated_flywheel_setup.Reporting.Notify.{
  GitHubConfig, Notification, Issue, issue_label, created, closed, github_token, find_issue,
  find_open_issue, on_failure, on_success, with_token, github,
}
use automated_flywheel_setup.Reporting.Notify.Issues.{
  Repository, has_number, answer_request, answer_all, serving, notify_once, is_rolling, automated,
  HasNumber, count_by-snoc, one_if-true, one_if-le, count_by-keep, find_issue-none,
  find_issue-closed, labelled-snoc, labelled-keep, length-keep,
}

-- Every open issue with the label has a number, one at most of them is a rolling one, and a page of fifty
-- has room for one besides the others.
pub record IsOrderly (title : String) (r : Repository) : Type 0 where
  pub numbered : All HasNumber (automated r)
  pub at_most_one : count_by (is_rolling title) (automated r) ≤ 1
  pub on_a_page : length (automated r) ≤ 49 + count_by (is_rolling title) (automated r)

take_all : (n : ℕ) (is : List Issue) → length is ≤ n → take n is ≡ is
take_all zero [] h = refl
take_all zero (i ∷ is) h = absurd (omega (arith, h))
take_all (suc n) [] h = refl
take_all (suc n) (i ∷ is) h = ap (◌∷◌ i) (take_all n is (omega (arith, h)))

-- So the service lists them all.
find_issue-listed :
    (title : String) (r : Repository)
    → IsOrderly title r
    → find_issue title (automated r) ≡ find_issue title (take 50 (automated r))
find_issue-listed title r h =
    sym (
      ap (find_issue title) (take_all 50 (automated r) (omega (arith, h.at_most_one, h.on_a_page))))

keep-HasNumber : (q : Issue → Bool) (is : List Issue) → All HasNumber is → All HasNumber (keep q is)
keep-HasNumber q [] h = tt
keep-HasNumber q (i ∷ is) (hi, h) = elim (Bool-cases (q i)) [
  | inl kept ↦ simp kept (hi, keep-HasNumber q is h)
  | inr gone ↦ simp gone (keep-HasNumber q is h)
]

-- The issue that a request creates.
abbrev new_issue : String → Repository → Issue
new_issue title r = record { pull_request = false; title = some title; number = some r.next }

new_issue-rolling : (title : String) (r : Repository) → is_rolling title (new_issue title r) ≡ true
new_issue-rolling title r = (starts_with_iff title title).1 ("", append-nil title)

-- Being orderly, by the issues with the label.
orderly :
    (title : String) (r : Repository) (is : List Issue)
    → automated r ≡ is
    → All HasNumber is
    → count_by (is_rolling title) is ≤ 1
    → length is ≤ 49 + count_by (is_rolling title) is
    → IsOrderly title r
orderly title r is e numbered one page = record {
  numbered = rw e numbered;
  at_most_one = rw e one;
  on_a_page = rw e page;
}

opened-IsOrderly :
    (title body : String) (r : Repository)
    → IsOrderly title r
    → count_by (is_rolling title) (automated r) ≡ 0
    → IsOrderly title (answer_request (created issue_label title body) r)
unfolding answer_request
opened-IsOrderly title body r h none_yet =
    let counted = count_by-snoc (is_rolling title) (automated r) (new_issue title r) in
    let first = one_if-true (is_rolling title (new_issue title r)) (new_issue-rolling title r) in
    let one = one_if-le (is_rolling title (new_issue title r)) in
    orderly title _ (automated r ++ new_issue title r ∷ [])
      (labelled-snoc r.issues (new_issue title r))
      (All-append HasNumber (automated r) _ h.numbered (refl, tt))
      (omega (arith, none_yet, counted, one))
      (omega (
        arith,
        none_yet,
        counted,
        first,
        h.on_a_page,
        length-append (automated r) (new_issue title r ∷ []),
      ))

closed-IsOrderly :
    (title : String) (n : ℕ) (r : Repository)
    → IsOrderly title r
    → IsOrderly title (answer_request (closed n) r)
unfolding answer_request
closed-IsOrderly title n r h =
    let q : Issue → Bool = λ i. not (has_number n i.number) in
    orderly title _ (keep q (automated r)) (labelled-keep n r.issues)
      (keep-HasNumber q (automated r) h.numbered)
      (omega (arith, h.at_most_one, count_by-keep (is_rolling title) q (automated r)))
      (omega (arith, h.on_a_page, length-keep (is_rolling title) q (automated r)))

module _ (variables : String → Option String) (g : GitHubConfig) (n : Notification) where
  on_failure-IsOrderly :
      (r : Repository) (found : Option ℕ)
      → find_issue g.issue_title (automated r) ≡ found
      → IsOrderly g.issue_title r
      → IsOrderly g.issue_title (answer_all (on_failure (serving variables r) g n found).1 r)
  unfolding on_failure answer_all answer_request
  on_failure-IsOrderly r (some number) e h = elim (Bool-cases g.add_comments) [
    | inl comments ↦ simp comments h
    | inr silent ↦ simp silent h
  ]
  on_failure-IsOrderly r none e h = elim (Bool-cases g.create_issues) [
    | inl creates ↦ simp creates (
        opened-IsOrderly g.issue_title n.body_markdown r h
          (find_issue-none g.issue_title (automated r) h.numbered e))
    | inr silent ↦ simp silent h
  ]

  on_success-IsOrderly :
      (r : Repository) (found : Option ℕ)
      → find_issue g.issue_title (automated r) ≡ found
      → IsOrderly g.issue_title r
      → IsOrderly g.issue_title (answer_all (on_success (serving variables r) n found).1 r)
  unfolding on_success answer_all answer_request
  on_success-IsOrderly r (some number) e h = closed-IsOrderly g.issue_title number r h
  on_success-IsOrderly r none e h = h

  on_success-none :
      (r : Repository) (found : Option ℕ)
      → find_issue g.issue_title (automated r) ≡ found
      → IsOrderly g.issue_title r
      → count_by
          (is_rolling g.issue_title)
          (automated (answer_all (on_success (serving variables r) n found).1 r))
        ≡ 0
  unfolding on_success answer_all answer_request
  on_success-none r (some number) e h =
      rw (labelled-keep number r.issues)
        (find_issue-closed g.issue_title number (automated r) e h.at_most_one)
  on_success-none r none e h = find_issue-none g.issue_title (automated r) h.numbered e

  with_token-IsOrderly :
      (r : Repository) (token : Option String)
      → IsOrderly g.issue_title r
      → IsOrderly g.issue_title (answer_all (with_token (serving variables r) g n token).1 r)
  unfolding with_token answer_all answer_request find_open_issue
  with_token-IsOrderly r none h = h
  with_token-IsOrderly r (some token) h = elim (Bool-cases (contains g.repo "/")) [
    | inr bad ↦ simp bad h
    | inl good ↦ elim (Bool-cases n.is_failure) [
      | inl failing ↦
          simp (good, failing) (on_failure-IsOrderly r _ (find_issue-listed g.issue_title r h) h)
      | inr clean ↦
          simp (good, clean) (on_success-IsOrderly r _ (find_issue-listed g.issue_title r h) h)
    ]
  ]

-- The notifications of a list of runs, in order.
unfoldable pub notify_all :
    (String → Option String) → GitHubConfig → List Notification → Repository → Repository
unfolding notify_once
notify_all variables g [] r = r
notify_all variables g (n ∷ ns) r = notify_all variables g ns (notify_once variables g n r)

notify_all-IsOrderly :
    (variables : String → Option String) (g : GitHubConfig) (ns : List Notification)
    (r : Repository)
    → IsOrderly g.issue_title r
    → IsOrderly g.issue_title (notify_all variables g ns r)
unfolding notify_all github
notify_all-IsOrderly variables g [] r h = h
notify_all-IsOrderly variables g (n ∷ ns) r h =
    notify_all-IsOrderly variables g ns (notify_once variables g n r)
      (with_token-IsOrderly variables g n r (github_token (serving variables r) g) h)

-- For a repository whose open issues with the label afsc-automated all have numbers, of which one at most is
-- no pull request and has a title that begins with the configured one, and of which a page of fifty has room
-- for one besides the others, and for a service that answers every request from it, lists with the label's
-- issues up to a page: this stays so by the notifications of any runs, with failures or clean; and where a
-- token is set and the repository is named as owner/repo, a clean run behind them leaves no such issue open.
pub notify_all-IsOrderly_clean :
    (variables : String → Option String) (g : GitHubConfig) (ns : List Notification)
    (n : Notification) (r : Repository) (token : String)
    → IsOrderly g.issue_title r
    → github_token (serving variables r) g ≡ some token
    → contains g.repo "/" ≡ true
    → n.is_failure ≡ false
    → IsOrderly g.issue_title (notify_all variables g ns r)
      × (count_by
            (is_rolling g.issue_title)
            (automated (notify_once variables g n (notify_all variables g ns r)))
          ≡ 0)
unfolding notify_once github github_token with_token answer_all answer_request find_open_issue
notify_all-IsOrderly_clean variables g ns n r token h set good clean =
    let after = notify_all-IsOrderly variables g ns r h in
    (
      after,
      simp (set, good, clean)
          (on_success-none variables g n (notify_all variables g ns r) _
            (find_issue-listed g.issue_title (notify_all variables g ns r) after) after),
    )
