-- ===== src/Runner/Shell/Command.antt =====
-- src/runner/executor.rs: `installer_command` and `build_verified_install_script`, and how the shell
-- splits the command.
use Prim.Native.Char.{Char, code}
use Prim.Native.String.{[], ◌∷◌}
use text.Mathlib.TextLemmas.{nil-append, cons-append, append-nil, append_assoc}
use automated_flywheel_setup.Base.{
  ℕ, eqb, String, ◌++ₛ◌, ◌≡◌, refl, sym, ap, ◌∙◌, Bool, true, false, none, some, List, ◌++◌, arith,
  concat, map_option, if◌then◌else◌,
}
use automated_flywheel_setup.Runner.Installer.{InstallerTest}
use automated_flywheel_setup.Runner.Shell.{
  between, bare, go, quote_char, backslash, push, shell_quote, is_plain, read_char, words_from,
  shell_words,
}
use automated_flywheel_setup.Runner.Shell.Quote.{words_from-shell_quote, push_append}

-- `installer_args`: `--dry-run` is appended in dry-run mode.
unfoldable pub installer_args : Bool → InstallerTest → List String
installer_args dry_run test =
    if dry_run then test.args ++ List.◌∷◌ "--dry-run" List.[] else test.args

-- The loop of `installer_command`.
unfoldable pub push_args : String → List String → String
push_args cmd List.[] = cmd
push_args cmd (List.◌∷◌ a args) = push_args ((cmd ++ₛ " ") ++ₛ shell_quote a) args

unfoldable pub installer_command : Bool → InstallerTest → String → String
installer_command dry_run test script_path =
    push_args (test.interpreter ++ₛ (" " ++ₛ shell_quote script_path)) (installer_args dry_run test)

-- A text that the shell reads as it is: of plain characters, and at least one.
abbrev pub AllPlain : String → Type 0
AllPlain [] = Unit
AllPlain (c ∷ s) = (is_plain (code c) ≡ true) × AllPlain s

abbrev pub IsPlainWord : String → Type 0
IsPlainWord [] = ⊥
IsPlainWord (c ∷ s) = (is_plain (code c) ≡ true) × AllPlain s

plain_not_special :
    (c : ℕ)
    → is_plain c ≡ true
    → (eqb c 32 ≡ false) × (eqb c quote_char ≡ false) × (eqb c backslash ≡ false)
plain_not_special c h = (ground arith, ground arith, ground arith)

read_char-bare :
    (cur : String) (c : Char)
    → is_plain (code c) ≡ true
    → read_char bare cur c ≡ go bare (push cur c)
unfolding read_char
read_char-bare cur c h =
    let (blank, quote, slash) = plain_not_special (code c) h in rw (blank, quote, slash, h)

read_char-between :
    (cur : String) (c : Char)
    → is_plain (code c) ≡ true
    → read_char between cur c ≡ go bare (push "" c)
unfolding read_char
read_char-between cur c h =
    let (blank, quote, slash) = plain_not_special (code c) h in rw (blank, quote, slash, h)

bare-AllPlain :
    (cur s rest : String)
    → AllPlain s
    → words_from bare cur (s ++ₛ rest) ≡ words_from bare (cur ++ₛ s) rest
unfolding words_from
bare-AllPlain cur [] rest h = simp (nil-append, append-nil)
bare-AllPlain cur (c ∷ s) rest (plain, h) = simp cons-append (
    rw (read_char-bare cur c plain, words_from)
      (bare-AllPlain (push cur c) s rest h
        ∙ ap (λ t. words_from bare t rest) (push_append cur c s)))

between-IsPlainWord :
    (w rest : String) → IsPlainWord w → words_from between "" (w ++ₛ rest) ≡ words_from bare w rest
unfolding words_from
between-IsPlainWord [] rest h = absurd h
between-IsPlainWord (c ∷ s) rest (plain, h) = simp cons-append (
    rw (read_char-between "" c plain, words_from)
      (bare-AllPlain (push "" c) s rest h
        ∙ ap (λ t. words_from bare t rest) (push_append "" c s ∙ nil-append (c ∷ s))))

bare-blank :
    (w rest : String)
    → words_from bare w (" " ++ₛ rest)
      ≡ map_option (λ ws. List.◌∷◌ w ws) (words_from between "" rest)
unfolding words_from read_char
bare-blank w rest = rw (cons-append, nil-append)

-- What the loop appends to the command.
quoted_args : List String → String
quoted_args List.[] = ""
quoted_args (List.◌∷◌ a args) = " " ++ₛ (shell_quote a ++ₛ quoted_args args)

push_args-append :
    (cmd : String) (args : List String) → push_args cmd args ≡ cmd ++ₛ quoted_args args
unfolding push_args quoted_args
push_args-append cmd List.[] = sym (append-nil cmd)
push_args-append cmd (List.◌∷◌ a args) =
    push_args-append ((cmd ++ₛ " ") ++ₛ shell_quote a) args ∙ simp append_assoc

words-quoted_args :
    (w : String) (args : List String)
    → words_from bare w (quoted_args args) ≡ some (List.◌∷◌ w args)
unfolding quoted_args
words-quoted_args w List.[] = unfold words_from in refl
words-quoted_args w (List.◌∷◌ a args) =
    simp (bare-blank, words_from-shell_quote, words-quoted_args a args)

-- Where the interpreter is a plain word, as `bash` and `sh` are, the shell splits the command into
-- the interpreter, the path of the script, and the arguments, each as it was given, with `--dry-run`
-- as the last one in dry-run mode: no argument is split, expanded or run.
pub shell_words-installer_command :
    (dry_run : Bool) (test : InstallerTest) (script_path : String)
    → IsPlainWord test.interpreter
    → shell_words (installer_command dry_run test script_path)
      ≡ some (List.◌∷◌ test.interpreter (List.◌∷◌ script_path (installer_args dry_run test)))
unfolding shell_words installer_command
shell_words-installer_command dry_run test script_path plain =
    simp (push_args-append, append_assoc)
      (between-IsPlainWord test.interpreter _ plain
        ∙ simp (bare-blank, words_from-shell_quote, words-quoted_args))

-- The list of a text's parts.
infixr 40 ◌▹◌
abbrev ◌▹◌ : String → List String → List String
s ▹ rest = List.◌∷◌ s rest

abbrev nothing : List String
nothing = List.[]

-- The script of an installer with a pinned hash; `curl` is `CURL_BIN`.
unfoldable pub verified_script : String → String → String → String → String
verified_script path url expected run = concat (
    "set -e\nrm -f '" ▹ path ▹ "'\ncurl -fsSL '" ▹ url ▹ "' -o '" ▹ path
    ▹ "'\nACTUAL=$( (command -v sha256sum >/dev/null 2>&1 && sha256sum '" ▹ path
    ▹ "' || shasum -a 256 '" ▹ path ▹ "') | cut -d' ' -f1)\nif [ \"$ACTUAL\" != \"" ▹ expected
    ▹ "\" ]; then\n  echo \"CHECKSUM_MISMATCH: expected=" ▹ expected ▹ " actual=$ACTUAL url=" ▹ url
    ▹ "\" >&2\n  exit 99\nfi\necho \"CHECKSUM_OK $ACTUAL\" >&2\nchmod 0444 '" ▹ path ▹ "'\nset +e\n"
    ▹ run ▹ nothing)

-- The script of one without.
unfoldable pub staged_script : String → String → String → String
staged_script path url run = concat (
    "set -e\nrm -f '" ▹ path ▹ "'\ncurl -fsSL '" ▹ url ▹ "' -o '" ▹ path ▹ "'\nchmod 0444 '" ▹ path
    ▹ "'\nset +e\n" ▹ run ▹ nothing)

-- Where the container stages the script.
abbrev pub container_script_path : InstallerTest → String
container_script_path test = concat ("/tmp/installer_" ▹ test.name ▹ ".sh" ▹ nothing)

unfoldable pub build_verified_install_script : Bool → InstallerTest → String
unfolding verified_script staged_script
build_verified_install_script dry_run test =
    let path = container_script_path test in
    let run = installer_command dry_run test path in
    elim test.expected_sha256 [
      | some expected ↦ verified_script path test.url expected run
      | none ↦ staged_script path test.url run
    ]
