-- ===== src/Runner/Shell.antt =====
-- src/runner/executor.rs: `shell_quote` and the command line of an installer, and how a POSIX shell
-- reads such a line (POSIX.1-2017, Shell Command Language, 2.2 and 2.3): blanks between words, single
-- quotes, and the backslash.
pub mod Quote
mod Tests
pub mod Command
use Prim.Native.Char.{Char, code}
use Prim.Native.String.{String, [], ◌∷◌}
use automated_flywheel_setup.Base.{
  ℕ, ◌++ₛ◌, Bool, true, false, ◌&&◌, ◌||◌, not, Option, none, some, List, contains, eqb, leb,
  map_option, if◌then◌else◌,
}
use mathlib.Core.List

abbrev pub quote_char : ℕ
quote_char = 39

abbrev pub backslash : ℕ
backslash = 92

-- `s.replace('\'', "'\\''")`
unfoldable pub replace_quotes : String → String
replace_quotes [] = ""
replace_quotes (c ∷ s) =
    let rest = replace_quotes s in
    if eqb (code c) quote_char then "'\\''" ++ₛ rest else (c ∷ "") ++ₛ rest

unfoldable pub shell_quote : String → String
shell_quote s = "'" ++ₛ (replace_quotes s ++ₛ "'")

-- How far the shell has read: between two words, in a word, inside single quotes, after a backslash.
pub data Mode : Type 0 where
  between bare quoted escaped : Mode

-- What one character does: it goes on in a mode with the word so far, ends the word, or is one with
-- a meaning that is not modelled (an operator, an expansion, a comment, another quote).
pub data Read : Type 0 where
  go : Mode → String → Read
  word : String → Read
  refuse : Read

-- A character that stands for itself outside quotes: a letter, a digit, or one of `_ - . / : , + @`.
abbrev pub is_plain : ℕ → Bool
is_plain c =
    leb 97 c && leb c 122
    || leb 65 c && leb c 90
    || leb 44 c && leb c 58
    || eqb c 95
    || eqb c 43
    || eqb c 64

abbrev pub push : String → Char → String
push cur c = cur ++ₛ (c ∷ "")

abbrev pub open_word : String → Char → Read
open_word cur c =
    if eqb (code c) quote_char
    then go quoted cur
    else if eqb (code c) backslash
    then go escaped cur
    else if is_plain (code c)
    then go bare (push cur c)
    else refuse

unfoldable pub read_char : Mode → String → Char → Read
read_char between cur c = if eqb (code c) 32 then go between "" else open_word "" c
read_char bare cur c = if eqb (code c) 32 then word cur else open_word cur c
read_char quoted cur c = if eqb (code c) quote_char then go bare cur else go quoted (push cur c)
read_char escaped cur c = go bare (push cur c)

abbrev pub at_end : Mode → String → Option (List String)
at_end between cur = some List.[]
at_end bare cur = some (List.◌∷◌ cur List.[])
at_end quoted cur = none
at_end escaped cur = none

-- The words of a line, read in a mode with the word so far; `none` where the reading is refused or
-- the line ends inside quotes.
unfoldable pub words_from : Mode → String → String → Option (List String)
words_from m cur [] = at_end m cur
words_from m cur (c ∷ s) = elim (read_char m cur c) [
  | go m' cur' ↦ words_from m' cur' s
  | word w ↦ map_option (λ ws. List.◌∷◌ w ws) (words_from between "" s)
  | refuse ↦ none
]

unfoldable pub shell_words : String → Option (List String)
shell_words line = words_from between "" line
