-- ===== src/Runner/Shell/Tests.antt =====
-- The theorems of the quoting at concrete texts.
use automated_flywheel_setup.Base.{◌≡◌, refl, true, some, [], ◌∷◌}
use automated_flywheel_setup.Runner.Installer.{InstallerTest, new_test}
use automated_flywheel_setup.Runner.Shell.{replace_quotes, shell_quote, shell_words}
use automated_flywheel_setup.Runner.Shell.Command.{
  installer_args, installer_command, shell_words-installer_command,
}

its_name : shell_quote "it's" ≡ "'it'\\''s'"
unfolding shell_quote replace_quotes
its_name = refl

abbrev with_argument : InstallerTest
with_argument = record (new_test "tool" "https://tool.sh") { args = "--to=$HOME dir" ∷ [] }

shell_words-installer_command_example :
    shell_words (installer_command true with_argument "/tmp/tool.sh")
    ≡ some ("bash" ∷ "/tmp/tool.sh" ∷ "--to=$HOME dir" ∷ "--dry-run" ∷ [])
unfolding installer_args new_test
shell_words-installer_command_example =
    shell_words-installer_command true with_argument "/tmp/tool.sh"
      (refl, (refl, (refl, (refl, tt))))
