-- ===== src/Reporting/Notify/Tests.antt =====
-- src/reporting/notify.rs: a failing run, another, and a clean one.
use automated_flywheel_setup.Base.{
  String, ◌≡◌, refl, true, false, Option, none, some, [], ◌∷◌, count_by, contains, arith,
}
use automated_flywheel_setup.Reporting.Notify.{
  GitHubConfig, Notification, listed, commented, closed, github_token, send,
}
use automated_flywheel_setup.Reporting.Notify.Issues.{
  OpenIssue, Repository, labelled, automated, serving, notify_once, is_rolling,
}
use automated_flywheel_setup.Reporting.Notify.Rolling.{
  IsOrderly, notify_all, notify_all-IsOrderly_clean,
}

abbrev config : GitHubConfig
config = record {
  repo = "owner/acfs";
  token_env = "GITHUB_TOKEN";
  create_issues = true;
  add_comments = true;
  api_url = "https://api.github.com";
  issue_title = "AFSC canary: installer failures";
}

abbrev variables : String → Option String
variables name = some "secret"

abbrev failing : Notification
failing = record { title = "2 failed"; body_markdown = "bun, uv"; is_failure = true }

abbrev clean : Notification
clean = record { title = "all passed"; body_markdown = "40 installers"; is_failure = false }

-- An issue that someone else opened with the title.
abbrev unlabelled : OpenIssue
unlabelled = record {
  labels = "bug" ∷ [];
  issue = record {
    pull_request = false;
    title = some "AFSC canary: installer failures";
    number = some 3;
  };
}

abbrev fresh : Repository
fresh = record { issues = unlabelled ∷ []; next = 7 }

-- The first failure creates the issue, and the clean run comments on it and closes it.
opened : notify_all variables config (failing ∷ failing ∷ []) fresh ≡ record {
  issues =
      unlabelled
      ∷ record {
        labels = "afsc-automated" ∷ [];
        issue = record {
          pull_request = false;
          title = some "AFSC canary: installer failures";
          number = some 7;
        };
      }
      ∷ [];
  next = 8;
}
unfolding notify_all contains labelled
opened = refl

asked_when_clean :
    (send
      (serving variables (notify_all variables config (failing ∷ []) fresh))
      (record { enabled = true; github = some config; slack = none })
      clean).1
    ≡ listed "afsc-automated" 50
      ∷ commented 7 "Recovered: all passed\n\n40 installers"
      ∷ closed 7
      ∷ []
unfolding send notify_all contains labelled
asked_when_clean = refl

token_set : github_token (serving variables fresh) config ≡ some "secret"
unfolding github_token
token_set = refl

owner_and_repo : contains config.repo "/" ≡ true
unfolding contains
owner_and_repo = refl

notify_all-IsOrderly_clean_example :
    IsOrderly "AFSC canary: installer failures" (notify_all variables config (failing ∷ []) fresh)
    × (count_by (is_rolling "AFSC canary: installer failures") (
          automated
            (notify_once variables config clean (notify_all variables config (failing ∷ []) fresh)))
        ≡ 0)
unfolding labelled
notify_all-IsOrderly_clean_example =
    notify_all-IsOrderly_clean variables config (failing ∷ []) clean fresh "secret"
      (record { numbered = tt; at_most_one = omega arith; on_a_page = omega arith }) token_set
      owner_and_repo refl
