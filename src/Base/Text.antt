-- ===== src/Base/Text.antt =====
-- What the program uses of Rust's `str`: `==`, `contains`, `join`, and decimal numerals.
use Prim.Native.Nat.{ℕ, zero, suc, ◌+◌, ◌/◌, ◌%◌}
use Prim.Native.Char.{code}
use Prim.Native.String.{String, ◌++◌}
use Prim.Native.String
use mathlib.Core.Bool.{Bool, false, ◌||◌}
use mathlib.Core.List.{List, [], ◌∷◌, ◌++◌ as ◌++ₗ◌}
use text.Mathlib.Text.{◌==◌, find?}
use automated_flywheel_setup.Base.Int.{ℤ, pos, negsuc}
use automated_flywheel_setup.Base.Tests.{ltb, eqb, is_some, if◌then◌else◌}

infix 50 ◌==ₛ◌
abbrev pub ◌==ₛ◌ : String → String → Bool
s ==ₛ t = s == t

-- `text.contains(piece)`
unfoldable pub contains : String → String → Bool
contains text piece = is_some (find? text piece)

-- `list.contains(&s)`
abbrev pub has_text : List String → String → Bool
has_text [] s = false
has_text (x ∷ xs) s = x == s || has_text xs s

-- A string literal with holes, put together.
abbrev pub concat : List String → String
concat [] = ""
concat (s ∷ rest) = s ++ concat rest

digit : ℕ → String
digit n =
    if eqb n 0
    then "0"
    else if eqb n 1
    then "1"
    else if eqb n 2
    then "2"
    else if eqb n 3
    then "3"
    else if eqb n 4
    then "4"
    else if eqb n 5
    then "5"
    else if eqb n 6
    then "6"
    else if eqb n 7
    then "7"
    else if eqb n 8
    then "8"
    else "9"

-- One round for each digit; `suc n` rounds are enough, since each divides by ten.
decimal : ℕ → ℕ → String
decimal zero n = ""
decimal (suc rounds) n =
    let rest = decimal rounds (n / 10) in if ltb n 10 then digit n else rest ++ digit (n % 10)

-- `format!("{n}")` of an unsigned integer below 2^128.
unfoldable pub show : ℕ → String
unfolding decimal digit
show n = decimal 40 n

-- `format!("{n}")` of a signed integer.
unfoldable pub show_ℤ : ℤ → String
unfolding show
show_ℤ (pos n) = show n
show_ℤ (negsuc n) = "-" ++ show (suc n)

-- The digits behind the point of a `Duration`, without trailing zeros; `divisor` is the weight of the
-- next one.
fraction : ℕ → ℕ → ℕ → String
unfolding digit
fraction zero part divisor = ""
fraction (suc places) part divisor =
    let rest = fraction places (part % divisor) (divisor / 10) in
    if eqb part 0 then "" else digit (part / divisor) ++ rest

decimals : ℕ → ℕ → ℕ → ℕ → String → String
unfolding fraction show
decimals whole part places divisor unit =
    let digits = fraction places part divisor in
    if eqb part 0 then show whole ++ unit else show whole ++ ("." ++ (digits ++ unit))

-- `format!("{d:?}")` of a `Duration` of `d` nanoseconds.
unfoldable pub debug_duration : ℕ → String
unfolding decimals show
debug_duration d =
    if ltb 0 (d / 1_000_000_000)
    then decimals (d / 1_000_000_000) (d % 1_000_000_000) 9 100_000_000 "s"
    else if ltb 999_999 d
    then decimals (d / 1_000_000) (d % 1_000_000) 6 100_000 "ms"
    else if ltb 999 d
    then decimals (d / 1_000) (d % 1_000) 3 100 "µs"
    else show d ++ "ns"

-- The bytes of a character in UTF-8.
abbrev encode : ℕ → List ℕ
encode c =
    if ltb c 128
    then c ∷ []
    else if ltb c 2048
    then (192 + c / 64) ∷ (128 + c % 64) ∷ []
    else if ltb c 65536
    then (224 + c / 4096) ∷ (128 + c / 64 % 64) ∷ (128 + c % 64) ∷ []
    else (240 + c / 262144) ∷ (128 + c / 4096 % 64) ∷ (128 + c / 64 % 64) ∷ (128 + c % 64) ∷ []

-- `s.as_bytes()`
unfoldable pub as_bytes : String → List ℕ
as_bytes Prim.Native.String.[] = []
as_bytes (Prim.Native.String.◌∷◌ c s) = encode (code c) ++ₗ as_bytes s
