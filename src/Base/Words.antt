-- ===== src/Base/Words.antt =====
-- What the program uses of Rust's `str` to read words and numbers: `split_whitespace`, `split(c)`,
-- `parse::<usize>()` and `strip_suffix(c)`.
use Prim.Native.Nat.{ℕ, zero, suc, ◌+◌, ◌-◌, ◌*◌, ◌^◌}
use Prim.Native.Char.{code}
use Prim.Native.String.append
use Prim.Native.String.{String, [], ◌∷◌, ◌++◌}
use mathlib.Core.Path.{◌≡◌, refl, ap}
use mathlib.Core.Bool.{Bool, true, false, ◌&&◌, ◌||◌}
use text.Mathlib.Text.{◌==◌}
use mathlib.Core.Option.{Option, none, some}
use mathlib.Core.List.{List}
use automated_flywheel_setup.Base.Tests.{ltb, leb, eqb, if◌then◌else◌, map_option}
use automated_flywheel_setup.Base.Lines.{is_whitespace, is_empty}

abbrev put_word : String → List String → List String
put_word word rest = if is_empty word then rest else List.◌∷◌ word rest

-- `word` holds the characters since the last blank.
words_from : String → String → List String
words_from word [] = put_word word List.[]
words_from word (c ∷ s) = elim (is_whitespace (code c)) [
  | true ↦ put_word word (words_from "" s)
  | false ↦ words_from (word ++ (c ∷ [])) s
]

-- `split_whitespace()`
unfoldable pub words : String → List String
unfolding words_from
words s = words_from "" s

pieces_from : ℕ → String → String → List String
pieces_from sep piece [] = List.◌∷◌ piece List.[]
pieces_from sep piece (c ∷ s) = elim (eqb (code c) sep) [
  | true ↦ List.◌∷◌ piece (pieces_from sep "" s)
  | false ↦ pieces_from sep (piece ++ (c ∷ [])) s
]

-- `split(sep)` at a character: one piece more than there are separators.
unfoldable pub pieces : ℕ → String → List String
unfolding pieces_from
pieces sep s = pieces_from sep "" s

pieces_from-cons :
    (sep : ℕ) (piece s : String)
    → (p : String) × (ps : List String) × (pieces_from sep piece s ≡ List.◌∷◌ p ps)
unfolding pieces_from
pieces_from-cons sep piece [] = (piece, List.[], refl)
pieces_from-cons sep piece (c ∷ s) =
    by_test (eqb (code c) sep) (pieces_from-cons sep (piece ++ (c ∷ [])) s)
  where
    by_test :
        (here : Bool)
        → ((p : String) × (ps : List String) × (pieces_from sep (piece ++ (c ∷ [])) s
              ≡ List.◌∷◌ p ps))
        → (p : String) × (ps : List String) × (elim here as (λ _. List String) [
          | true ↦ List.◌∷◌ piece (pieces_from sep "" s)
          | false ↦ pieces_from sep (piece ++ (c ∷ [])) s
        ]
            ≡ List.◌∷◌ p ps)
    by_test true behind = (piece, pieces_from sep "" s, refl)
    by_test false behind = behind

-- There is a first piece.
pub pieces-cons :
    (sep : ℕ) (s : String) → (p : String) × (ps : List String) × (pieces sep s ≡ List.◌∷◌ p ps)
unfolding pieces
pieces-cons sep s = pieces_from-cons sep "" s

-- The value of a text of digits behind those read so far.
unfoldable pub digits_from : ℕ → String → Option ℕ
digits_from n [] = some n
digits_from n (c ∷ s) =
    let rest = digits_from (n * 10 + (code c - 48)) s in
    if leb 48 (code c) && leb (code c) 57 then rest else none

abbrev below : ℕ → Option ℕ → Option ℕ
below limit none = none
below limit (some n) = if ltb n limit then some n else none

-- A text without its sign, `+`, which `parse` allows.
abbrev unsigned : String → String
unsigned [] = []
unsigned (c ∷ s) = if eqb (code c) 43 then s else c ∷ s

-- `parse::<usize>()`
unfoldable pub parse_usize : String → Option ℕ
unfolding digits_from
parse_usize s = if is_empty (unsigned s) then none else below (2 ^ 64) (digits_from 0 (unsigned s))

-- `strip_suffix` of one character
unfoldable pub strip_suffix_char : ℕ → String → Option String
strip_suffix_char last [] = none
strip_suffix_char last (c ∷ s) =
    let rest = map_option (λ (t : String). c ∷ t) (strip_suffix_char last s) in
    if is_empty s then if eqb (code c) last then some [] else none else rest

-- The code of the first character, 0 where there is none.
abbrev pub first_code : String → ℕ
first_code [] = 0
first_code (c ∷ s) = code c

pub first_code-append : (s t : String) → is_empty s ≡ false → first_code (s ++ t) ≡ first_code s
first_code-append [] t h = absurd (cc h)
first_code-append (c ∷ s) t h = ap first_code (append.cons c s t)

-- `chars().take(n)`
unfoldable pub take_chars : ℕ → String → String
take_chars zero s = []
take_chars (suc n) [] = []
take_chars (suc n) (c ∷ s) = c ∷ take_chars n s

-- `ends_with`
unfoldable pub ends_with : String → String → Bool
ends_with [] t = is_empty t
ends_with (c ∷ s) t = (c ∷ s) == t || ends_with s t
