-- ===== src/Reporting/Notify.antt =====
-- src/reporting/notify.rs: `Notifier::send`. The answers of the two services and the environment are
-- arguments, and what is asked of them is a list of requests. The JSON of the Slack message and the texts of
-- errors, which only go to the log, are left out.
pub mod Issues
pub mod Rolling
mod Tests
use text.Mathlib.Text.{starts_with}
use automated_flywheel_setup.Base.{
  ℕ, ◌+◌, String, Bool, true, false, not, ◌&&◌, ◌||◌, Option, none, some, List, [], ◌∷◌, ◌++◌,
  concat, contains, is_empty, trim, unwrap_or, eqb, leb, if◌then◌else◌,
}

pub record GitHubConfig : Type 0 where
  pub repo : String
  pub token_env : String
  pub create_issues : Bool
  pub add_comments : Bool
  pub api_url : String
  pub issue_title : String

pub record SlackConfig : Type 0 where
  pub webhook_url_env : String
  pub channel : String
  pub notify_on_failure : Bool
  pub notify_on_success : Bool

pub record NotificationConfig : Type 0 where
  pub enabled : Bool
  pub github : Option GitHubConfig
  pub slack : Option SlackConfig

-- `Notification`, as far as `send` reads it.
pub record Notification : Type 0 where
  pub title : String
  pub body_markdown : String
  pub is_failure : Bool

pub record NotifyOutcome : Type 0 where
  pub github : Option String
  pub github_issue : Option ℕ
  pub slack : Option String

-- An issue of the list, as far as it is read: `pull_request` tells whether it has that field.
pub record Issue : Type 0 where
  pub pull_request : Bool
  pub title : Option String
  pub number : Option ℕ

-- `ISSUE_LABEL`
abbrev pub issue_label : String
issue_label = "afsc-automated"

-- What is asked of the services: the open issues with a label, as many as a page holds; a new issue with
-- that label; a comment; the end of an issue; a message.
pub data Asked : Type 0 where
  listed : (label : String) (per_page : ℕ) → Asked
  created : (label title body : String) → Asked
  commented : (number : ℕ) (body : String) → Asked
  closed : (number : ℕ) → Asked
  posted : Asked

-- The answer to a request: none, or a status with what the body holds.
pub data Response (A : Type 0) : Type 0 where
  no_response : Response A
  response : (status : ℕ) → A → Response A

-- What the services answer and the environment holds.
pub record Services : Type 0 where
  pub variable : String → Option String
  pub issues : (label : String) (per_page : ℕ) → Response (List Issue)
  pub creation : Response (Option ℕ)
  pub comment : Response Unit
  pub closing : Response Unit
  pub slack : Response Unit

-- The result of a step: a value or an error, behind the requests that it made.
pub data Done (A : Type 0) : Type 0 where
  ok : A → Done A
  err : Done A

-- `status.is_success()` and `status == CREATED`
abbrev pub is_success : ℕ → Bool
is_success status = leb 200 status && leb status 299

abbrev pub is_created : ℕ → Bool
is_created status = eqb status 201

abbrev pub set_value : Option String → Option String
set_value none = none
set_value (some value) = if not (is_empty (trim value)) then some value else none

-- `github_token`
unfoldable pub github_token : Services → GitHubConfig → Option String
unfolding trim
github_token s g =
    if is_empty (trim g.repo)
    then none
    else if is_empty (trim g.token_env)
    then none
    else set_value (s.variable g.token_env)

abbrev pub has_prefix : String → Option String → Bool
has_prefix title none = false
has_prefix title (some t) = starts_with t title

-- The first issue that is no pull request and whose title begins with the given one; without a number it
-- is taken for none.
unfoldable pub find_issue : String → List Issue → Option ℕ
find_issue title [] = none
find_issue title (i ∷ issues) =
    let later = find_issue title issues in
    if not i.pull_request && has_prefix title i.title then i.number else later

-- `find_open_issue`
unfoldable pub find_open_issue : String → Response (List Issue) → Done (Option ℕ)
unfolding find_issue
find_open_issue title no_response = err
find_open_issue title (response status issues) =
    if is_success status then ok (find_issue title issues) else err

-- `create_issue`: an answer without a number gives 0.
unfoldable pub create_issue : Response (Option ℕ) → Done ℕ
create_issue no_response = err
create_issue (response status number) = if is_created status then ok (unwrap_or number 0) else err

-- `post_comment`
unfoldable pub post_comment : Response Unit → Done Unit
post_comment no_response = err
post_comment (response status _) = if is_created status then ok tt else err

-- `close_issue` and the end of `slack`
unfoldable pub close_issue : Response Unit → Done Unit
close_issue no_response = err
close_issue (response status _) = if is_success status then ok tt else err

-- What a channel gives: its action and issue, or an error; and what it asked.
abbrev pub Channel : Type 0
Channel = Done (String × Option ℕ) × List Asked

-- A request that has to succeed before what follows.
abbrev pub after_request : {A : Type 0} → Asked → Done A → (A → Channel) → Channel
after_request asked (ok a) next = let (done, later) = next a in (done, asked ∷ later)
after_request asked err next = (err, asked ∷ [])

-- The match of a failing run.
unfoldable pub on_failure : Services → GitHubConfig → Notification → Option ℕ → Channel
unfolding post_comment create_issue
on_failure s g n (some number) =
    if g.add_comments
    then after_request (commented number n.body_markdown) (post_comment s.comment)
        (λ _. (ok ("commented", some number), []))
    else (ok ("skipped", some number), [])
on_failure s g n none =
    if g.create_issues
    then after_request (created issue_label g.issue_title n.body_markdown) (create_issue s.creation)
        (λ number. (ok ("created", some number), []))
    else (ok ("skipped", none), [])

-- The match of a clean run.
unfoldable pub on_success : Services → Notification → Option ℕ → Channel
unfolding post_comment close_issue
on_success s n (some number) =
    after_request
      (commented number (concat ("Recovered: " ∷ n.title ∷ "\n\n" ∷ n.body_markdown ∷ [])))
      (post_comment s.comment)
      (λ _.
        after_request (closed number) (close_issue s.closing)
          (λ _. (ok ("closed", some number), [])))
on_success s n none = (ok ("skipped", none), [])

unfoldable pub with_token : Services → GitHubConfig → Notification → Option String → Channel
unfolding on_failure on_success find_open_issue
with_token s g n none = (ok ("unconfigured", none), [])
with_token s g n (some token) =
    if not (contains g.repo "/")
    then (ok ("unconfigured", none), [])
    else after_request (listed issue_label 50)
        (find_open_issue g.issue_title (s.issues issue_label 50))
        (λ existing. if n.is_failure then on_failure s g n existing else on_success s n existing)

-- `Notifier::github`
unfoldable pub github : Services → GitHubConfig → Notification → Channel
unfolding github_token with_token
github s g n = with_token s g n (github_token s g)

abbrev pub slack_posted : Done Unit → String
slack_posted (ok _) = "sent"
slack_posted err = "failed"

abbrev pub to_webhook : Services → Option String → String × List Asked
to_webhook s none = ("unconfigured", [])
to_webhook s (some url) = (slack_posted (close_issue s.slack), posted ∷ [])

-- `Notifier::slack`, an error being a failure
unfoldable pub slack : Services → SlackConfig → String × List Asked
unfolding close_issue trim
slack s c =
    if is_empty (trim c.webhook_url_env)
    then ("unconfigured", [])
    else to_webhook s (set_value (s.variable c.webhook_url_env))

-- The kinds of run that Slack is to hear of.
abbrev pub is_wanted : SlackConfig → Notification → Bool
is_wanted c n = n.is_failure && c.notify_on_failure || not n.is_failure && c.notify_on_success

abbrev pub note_github : NotifyOutcome → Channel → NotifyOutcome × List Asked
note_github o (ok (action, issue), asked) =
    (record o { github = some action; github_issue = issue }, asked)
note_github o (err, asked) = (record o { github = some "failed" }, asked)

unfoldable pub send_github :
    Services → Notification → Option GitHubConfig → NotifyOutcome → NotifyOutcome × List Asked
unfolding github
send_github s n none o = (o, [])
send_github s n (some g) o = note_github o (github s g n)

unfoldable pub send_slack :
    Services → Notification → Option SlackConfig → NotifyOutcome → NotifyOutcome × List Asked
unfolding slack
send_slack s n none o = (o, [])
send_slack s n (some c) o =
    if not (is_wanted c n)
    then (record o { slack = some "skipped" }, [])
    else (let (sent, asked) = slack s c in (record o { slack = some sent }, asked))

abbrev pub no_outcome : NotifyOutcome
no_outcome = record { github = none; github_issue = none; slack = none }

-- `Notifier::send`
unfoldable pub send : Services → NotificationConfig → Notification → NotifyOutcome × List Asked
unfolding send_github send_slack
send s config n =
    if not config.enabled
    then (no_outcome, [])
    else (let (o, asked) = send_github s n config.github no_outcome in
        let (o', more) = send_slack s n config.slack o in (o', asked ++ more))
