-- ===== src/Reporting/Notify/Issues.antt =====
-- src/reporting/notify.rs: a repository with its open issues, and what the requests of `github` do to it.
use automated_flywheel_setup.Base.{
  ℕ, suc, ◌+◌, ◌≤◌, String, ◌≡◌, ◌==ₛ◌, refl, any, take, length, ap, ◌∙◌, Bool, Bool-cases, true,
  false, not, ◌&&◌, Option, none, some, List, [], ◌∷◌, ◌++◌, keep, count_by, eqb, is_some, All,
  arith, inl, inr, if◌then◌else◌,
}
use automated_flywheel_setup.Reporting.Notify.{
  GitHubConfig, Notification, Issue, Asked, issue_label, created, closed, response, Services,
  has_prefix, find_issue, github,
}

-- An open issue with its labels.
pub record OpenIssue : Type 0 where
  pub labels : List String
  pub issue : Issue

-- The open issues of a repository, and the number that the next one gets.
pub record Repository : Type 0 where
  pub issues : List OpenIssue
  pub next : ℕ

abbrev pub has_label : String → OpenIssue → Bool
has_label label o = any (λ l. l ==ₛ label) o.labels

-- The open issues that carry a label.
unfoldable pub labelled : String → List OpenIssue → List Issue
labelled label [] = []
labelled label (o ∷ os) =
    let rest = labelled label os in if has_label label o then o.issue ∷ rest else rest

abbrev pub has_number : ℕ → Option ℕ → Bool
has_number n none = false
has_number n (some m) = eqb m n

-- What a request does to the open issues.
unfoldable pub answer_request : Asked → Repository → Repository
answer_request (created label title body) r = record {
  issues =
      r.issues
      ++ record {
        labels = label ∷ [];
        issue = record { pull_request = false; title = some title; number = some r.next };
      }
        ∷ [];
  next = suc r.next;
}
answer_request (closed n) r = record r {
  issues = keep (λ o. not (has_number n o.issue.number)) r.issues;
}
answer_request _ r = r

unfoldable pub answer_all : List Asked → Repository → Repository
unfolding answer_request
answer_all [] r = r
answer_all (a ∷ asked) r = answer_all asked (answer_request a r)

-- A service that answers every request, from the repository: a list has the issues with the label, no more
-- than a page of them.
abbrev pub serving : (String → Option String) → Repository → Services
serving variables r = record {
  variable = variables;
  issues = λ label per_page. response 200 (take per_page (labelled label r.issues));
  creation = response 201 (some r.next);
  comment = response 201 tt;
  closing = response 200 tt;
  slack = response 200 tt;
}

-- One run's notification.
unfoldable pub notify_once :
    (String → Option String) → GitHubConfig → Notification → Repository → Repository
unfolding github answer_all
notify_once variables g n r = answer_all (github (serving variables r) g n).1 r

-- The issue is a rolling one: no pull request, with a title that begins as the configuration says.
abbrev pub is_rolling : String → Issue → Bool
is_rolling title i = not i.pull_request && has_prefix title i.title

-- The open issues with the label of the program.
abbrev pub automated : Repository → List Issue
automated r = labelled issue_label r.issues

abbrev pub HasNumber : Issue → Type 0
HasNumber i = is_some i.number ≡ true

count_by-cons :
    (p : Issue → Bool) (i : Issue) (is : List Issue)
    → count_by p (i ∷ is) ≡ (if p i then 1 else 0) + count_by p is
count_by-cons p i is = ground arith

pub count_by-snoc :
    (p : Issue → Bool) (is : List Issue) (i : Issue)
    → count_by p (is ++ i ∷ []) ≡ count_by p is + (if p i then 1 else 0)
count_by-snoc p [] i = ground arith
count_by-snoc p (x ∷ is) i =
    omega (arith, count_by-snoc p is i, count_by-cons p x (is ++ i ∷ []), count_by-cons p x is)

pub one_if-true : (b : Bool) → b ≡ true → 1 ≤ (if b then 1 else 0)
one_if-true b h = ground arith

pub one_if-le : (b : Bool) → (if b then 1 else 0) ≤ 1
one_if-le b = ground arith

pub count_by-keep : (p q : Issue → Bool) (is : List Issue) → count_by p (keep q is) ≤ count_by p is
count_by-keep p q [] = omega arith
count_by-keep p q (i ∷ is) = elim (Bool-cases (q i)) [
  | inl kept ↦
      simp kept
        (omega (arith, count_by-keep p q is, count_by-cons p i (keep q is), count_by-cons p i is))
  | inr gone ↦ simp gone (omega (arith, count_by-keep p q is, count_by-cons p i is))
]

-- Without an issue found there is no rolling one, if each has a number.
pub find_issue-none :
    (title : String) (is : List Issue)
    → All HasNumber is
    → find_issue title is ≡ none
    → count_by (is_rolling title) is ≡ 0
unfolding find_issue
find_issue-none title [] h e = refl
find_issue-none title (i ∷ is) (hi, h) e = elim (Bool-cases (is_rolling title i)) [
  | inl rolling ↦
      let unnumbered : i.number ≡ none = simp rolling at e in
      let missing : is_some i.number ≡ false = ap (λ (o : Option ℕ). is_some o) unnumbered in
      ground arith
  | inr other ↦ simp other (find_issue-none title is h (simp other at e))
]

-- Closing the one that was found leaves none, if there is one at most.
pub find_issue-closed :
    (title : String) (n : ℕ) (is : List Issue)
    → find_issue title is ≡ some n
    → count_by (is_rolling title) is ≤ 1
    → count_by (is_rolling title) (keep (λ i. not (has_number n i.number)) is) ≡ 0
unfolding find_issue
find_issue-closed title n [] e h = refl
find_issue-closed title n (i ∷ is) e h = elim (Bool-cases (is_rolling title i)) [
  | inl rolling ↦
      let numbered : i.number ≡ some n = simp rolling at e in
      let found : has_number n i.number ≡ true =
        ap (has_number n) numbered ∙ (let same : eqb n n ≡ true = ground arith in same) in
      simp found (
        omega (
          arith,
          h,
          count_by-cons (is_rolling title) i is,
          one_if-true (is_rolling title i) rolling,
          count_by-keep (is_rolling title) (λ j. not (has_number n j.number)) is,
        ))
  | inr other ↦
      let behind =
        find_issue-closed title n is (simp other at e)
          (omega (arith, h, count_by-cons (is_rolling title) i is)) in
      elim (Bool-cases (has_number n i.number)) [
        | inl gone ↦ simp gone behind
        | inr kept ↦ simp kept (simp other behind)
      ]
]

pub labelled-snoc :
    (os : List OpenIssue) (i : Issue)
    → labelled issue_label (os ++ record { labels = issue_label ∷ []; issue = i } ∷ [])
      ≡ labelled issue_label os ++ i ∷ []
unfolding labelled
labelled-snoc [] i = refl
labelled-snoc (o ∷ os) i = elim (Bool-cases (has_label issue_label o)) [
  | inl has ↦ simp has (ap (◌∷◌ o.issue) (labelled-snoc os i))
  | inr not_has ↦ simp not_has (labelled-snoc os i)
]

pub labelled-keep :
    (n : ℕ) (os : List OpenIssue)
    → labelled issue_label (keep (λ o. not (has_number n o.issue.number)) os)
      ≡ keep (λ i. not (has_number n i.number)) (labelled issue_label os)
unfolding labelled
labelled-keep n [] = refl
labelled-keep n (o ∷ os) =
    let later = labelled-keep n os in
    elim (Bool-cases (has_label issue_label o)) [
      | inl has ↦ elim (Bool-cases (has_number n o.issue.number)) [
        | inl gone ↦ simp (has, gone) later
        | inr kept ↦ simp (has, kept) (ap (◌∷◌ o.issue) later)
      ]
      | inr not_has ↦ elim (Bool-cases (has_number n o.issue.number)) [
        | inl gone ↦ simp (not_has, gone) later
        | inr kept ↦ simp (not_has, kept) later
      ]
    ]

-- What is dropped is no more of a kind than in all.
pub length-keep :
    (p q : Issue → Bool) (is : List Issue)
    → length (keep q is) + count_by p is ≤ length is + count_by p (keep q is)
length-keep p q [] = omega arith
length-keep p q (i ∷ is) =
    let one = one_if-le (p i) in
    elim (Bool-cases (q i)) [
      | inl kept ↦
          simp kept
            (omega (arith, length-keep p q is, count_by-cons p i (keep q is), count_by-cons p i is))
      | inr gone ↦ simp gone (omega (arith, one, length-keep p q is, count_by-cons p i is))
    ]
