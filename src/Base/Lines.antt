-- ===== src/Base/Lines.antt =====
-- What the program uses of Rust's `str` to take a text apart: lines, blanks, prefixes and separators.
pub mod Laws
use Prim.Native.Nat.{ℕ, ◌+◌}
use Prim.Native.Char.{Char, code}
use Prim.Native.String.{String, [], ◌∷◌, ◌++◌, len, slice}
use mathlib.Core.Bool.{Bool, true, false, ◌&&◌, ◌||◌}
use mathlib.Core.Option.{Option, none, some}
use mathlib.Core.List.{List}
use text.Mathlib.Text.{find?, starts_with}
use automated_flywheel_setup.Base.Tests.{leb, eqb, if◌then◌else◌, unwrap_or}

-- `char::is_whitespace`: the code points with the property White_Space.
abbrev pub is_whitespace : ℕ → Bool
is_whitespace c =
    leb 9 c && leb c 13
    || eqb c 32
    || eqb c 133
    || eqb c 160
    || eqb c 5760
    || leb 8192 c && leb c 8202
    || eqb c 8232
    || eqb c 8233
    || eqb c 8239
    || eqb c 8287
    || eqb c 12288

-- `s.is_empty()`
abbrev pub is_empty : String → Bool
is_empty [] = true
is_empty (c ∷ s) = false

abbrev snoc : String → Char → String
snoc s c = s ++ (c ∷ [])

-- `trim_start`
unfoldable pub trim_start : String → String
trim_start [] = []
trim_start (c ∷ s) = let rest = trim_start s in if is_whitespace (code c) then rest else c ∷ s

-- `trim_end`: a blank is dropped where only blanks follow it.
unfoldable pub trim_end : String → String
trim_end [] = []
trim_end (c ∷ s) =
    let rest = trim_end s in if is_whitespace (code c) && is_empty rest then [] else c ∷ rest

-- `trim`
unfoldable pub trim : String → String
unfolding trim_start trim_end
trim s = trim_end (trim_start s)

-- A line that ends with "\r\n" loses both.
strip_cr : String → String
strip_cr [] = []
strip_cr (c ∷ s) = let rest = strip_cr s in if eqb (code c) 13 && is_empty s then [] else c ∷ rest

-- `cur` holds the characters since the last line end.
lines_from : String → String → List String
lines_from cur [] = if is_empty cur then List.[] else List.◌∷◌ cur List.[]
lines_from cur (c ∷ s) = elim (eqb (code c) 10) [
  | true ↦ List.◌∷◌ (strip_cr cur) (lines_from "" s)
  | false ↦ lines_from (snoc cur c) s
]

-- `lines()`
unfoldable pub lines : String → List String
unfolding lines_from strip_cr
lines s = lines_from "" s

-- `split_whitespace().next()`: `none` if all is blank.
word_from : String → String → String
word_from cur [] = cur
word_from cur (c ∷ s) = elim (is_whitespace (code c)) [
  | true ↦ cur
  | false ↦ word_from (snoc cur c) s
]

unfoldable pub first_word : String → Option String
unfolding word_from trim_start
first_word s = let w = word_from "" (trim_start s) in if is_empty w then none else some w

-- `strip_prefix`
unfoldable pub strip_prefix : String → String → Option String
strip_prefix s p = if starts_with s p then some (slice s (len p) (len s)) else none

-- `split(sep).nth(1)`: what stands between the first separator and the second, or the end.
unfoldable pub second_piece : String → String → Option String
second_piece s sep = elim (find? s sep) [
  | none ↦ none
  | some i ↦
      let after = slice s (i + len sep) (len s) in
      some (slice after 0 (unwrap_or (find? after sep) (len after)))
]
