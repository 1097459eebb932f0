-- ===== src/Runner/Profile.antt =====
-- src/runner/acfs_profile.rs: the built-in execution profiles.
use automated_flywheel_setup.Base.{
  ℕ, String, Bool, Option, none, some, List, [], ◌∷◌, trim, is_some, unwrap_or, ◌==ₛ◌,
  if◌then◌else◌,
}

pub data Interpreter : Type 0 where
  bash : Interpreter
  sh : Interpreter

-- `as_str`
unfoldable pub interpreter_str : Interpreter → String
interpreter_str Interpreter.bash = "bash"
interpreter_str Interpreter.sh = "sh"

-- `Interpreter::parse`
unfoldable pub parse_interpreter : String → Option Interpreter
unfolding trim
parse_interpreter s =
    if trim s ==ₛ "bash"
    then some Interpreter.bash
    else if trim s ==ₛ "sh"
    then some Interpreter.sh
    else none

pub record Profile : Type 0 where
  pub interpreter : Interpreter
  pub args : List String
  pub env : List (String × String)
  pub min_timeout_seconds : Option ℕ
  pub version_cmd : Option String
  pub source : String

abbrev pub default_profile : Profile
default_profile = record {
  interpreter = Interpreter.bash;
  args = [];
  env = [];
  min_timeout_seconds = none;
  version_cmd = none;
  source = "default: scripts/lib/stack.sh generic path (bash, no args)";
}

-- `TABLE`
abbrev pub profiles : List (String × Profile)
profiles =
    (
      "zoxide",
      record {
        interpreter = Interpreter.sh;
        args = [];
        env = [];
        min_timeout_seconds = none;
        version_cmd = some "zoxide --version";
        source = "scripts/lib/cli_tools.sh: fetch_and_run_with_runner sh … zoxide";
      },
    )
    ∷ (
      "atuin",
      record {
        interpreter = Interpreter.sh;
        args = [];
        env = ("ATUIN_NO_MODIFY_PATH", "1") ∷ [];
        min_timeout_seconds = none;
        version_cmd = some "atuin --version";
        source =
            "scripts/lib/cli_tools.sh: ATUIN_NO_MODIFY_PATH=1 fetch_and_run_with_runner sh … atuin";
      },
    )
    ∷ (
      "uv",
      record {
        interpreter = Interpreter.sh;
        args = [];
        env = [];
        min_timeout_seconds = none;
        version_cmd = some "uv --version";
        source = "scripts/lib/languages.sh: fetch_and_run_with_runner sh … uv";
      },
    )
    ∷ (
      "rust",
      record {
        interpreter = Interpreter.sh;
        args = "-y" ∷ [];
        env = [];
        min_timeout_seconds = some 600;
        version_cmd = some "cargo --version";
        source = "scripts/lib/languages.sh: fetch_and_run_with_runner sh … rust -y";
      },
    )
    ∷ (
      "ubs",
      record {
        interpreter = Interpreter.bash;
        args = [];
        env = [];
        min_timeout_seconds = some 900;
        version_cmd = some "ubs --version";
        source =
            "scripts/lib/stack.sh: install_ubs (dynamic runner; cargo install ast-grep fallback)";
      },
    )
    ∷ (
      "bun",
      record {
        interpreter = Interpreter.bash;
        args = [];
        env = [];
        min_timeout_seconds = none;
        version_cmd = some "bun --version";
        source = "scripts/lib/languages.sh: fetch_and_run_with_runner bash … bun";
      },
    )
    ∷ (
      "ohmyzsh",
      record {
        interpreter = Interpreter.sh;
        args = "--unattended" ∷ "--keep-zshrc" ∷ [];
        env = [];
        min_timeout_seconds = none;
        version_cmd = none;
        source =
            "scripts/lib/zsh.sh: fetch_and_run_with_runner sh … ohmyzsh --unattended --keep-zshrc";
      },
    )
    ∷ (
      "claude",
      record {
        interpreter = Interpreter.bash;
        args = "latest" ∷ [];
        env = [];
        min_timeout_seconds = none;
        version_cmd = some "claude --version";
        source = "scripts/lib/agents.sh: fetch_and_run_with_runner bash … claude latest";
      },
    )
    ∷ (
      "gemini_patch",
      record {
        interpreter = Interpreter.bash;
        args = [];
        env = [];
        min_timeout_seconds = none;
        version_cmd = none;
        source = "scripts/lib/agents.sh: patch script run with bash; needs node on PATH";
      },
    )
    ∷ (
      "mdwb",
      record {
        interpreter = Interpreter.bash;
        args = [];
        env = [];
        min_timeout_seconds = some 900;
        version_cmd = none;
        source = "heavy build (Rust + Chromium deps); 900 s floor observed";
      },
    )
    ∷ (
      "nvm",
      record {
        interpreter = Interpreter.bash;
        args = [];
        env = [];
        min_timeout_seconds = none;
        version_cmd = some "bash -lc 'source ~/.nvm/nvm.sh >/dev/null 2>&1; nvm --version'";
        source = "nvm install script (bash)";
      },
    )
    ∷ []

unfoldable pub find_profile : String → List (String × Profile) → Option Profile
find_profile name [] = none
find_profile name ((n, p) ∷ rest) =
    let later = find_profile name rest in if n ==ₛ name then some p else later

-- `profile` and `has_profile`
unfoldable pub profile : String → Profile
unfolding find_profile
profile name = unwrap_or (find_profile name profiles) default_profile

unfoldable pub has_profile : String → Bool
unfolding find_profile
has_profile name = is_some (find_profile name profiles)
