-- ===== src/Config/Scalars.antt =====
-- src/config/resolve.rs: the scalars of a flag or a variable, `parse_scalar`, and the name of a variable,
-- `env_name_for`. A float is its text; whether a text is a float is `parse::<f64>()`, an argument.
use Prim.Native.Char.{Char, code}
use Prim.Native.String.{[], ◌∷◌, slice}
use automated_flywheel_setup.Base.{
  ℕ, ◌+◌, ◌-◌, ◌^◌, String, ◌++ₛ◌, Bool, true, false, ◌&&◌, Option, none, some, ◌==ₛ◌, leb, ltb,
  eqb, is_empty, contains, trim, digits_from, if◌then◌else◌,
}
use automated_flywheel_setup.Base.Int.{ℤ, pos, sub_ℕ}
use automated_flywheel_setup.Config.Toml.{Scalar}

-- The digits behind a sign, of which there is one at least.
abbrev unsigned_number : String → Option ℕ
unsigned_number s = if is_empty s then none else digits_from 0 s

abbrev non_negative : Option ℕ → Option ℤ
non_negative none = none
non_negative (some n) = if ltb n (2 ^ 63) then some (pos n) else none

abbrev negated : Option ℕ → Option ℤ
negated none = none
negated (some n) = if leb n (2 ^ 63) then some (sub_ℕ 0 n) else none

-- `parse::<i64>()`
unfoldable pub parse_i64 : String → Option ℤ
unfolding digits_from
parse_i64 [] = none
parse_i64 (c ∷ s) =
    if eqb (code c) 45
    then negated (unsigned_number s)
    else if eqb (code c) 43
    then non_negative (unsigned_number s)
    else non_negative (unsigned_number (c ∷ s))

-- A letter at the same place of another alphabet.
abbrev letter : String → ℕ → Char → String → String
letter alphabet first c rest =
    if leb first (code c) && leb (code c) (first + 25)
    then slice alphabet (code c - first) (code c - first + 1) ++ₛ rest
    else c ∷ rest

-- `to_ascii_lowercase`
unfoldable pub to_ascii_lowercase : String → String
to_ascii_lowercase [] = []
to_ascii_lowercase (c ∷ s) = letter "abcdefghijklmnopqrstuvwxyz" 65 c (to_ascii_lowercase s)

-- `to_ascii_uppercase`
unfoldable pub to_ascii_uppercase : String → String
to_ascii_uppercase [] = []
to_ascii_uppercase (c ∷ s) = letter "ABCDEFGHIJKLMNOPQRSTUVWXYZ" 97 c (to_ascii_uppercase s)

-- `match t.to_ascii_lowercase()`
unfoldable pub boolean_or_text : String → Scalar
unfolding to_ascii_lowercase
boolean_or_text t =
    if to_ascii_lowercase t ==ₛ "true"
    then Scalar.boolean true
    else if to_ascii_lowercase t ==ₛ "false"
    then Scalar.boolean false
    else Scalar.string t

abbrev integer_or : Option ℤ → Scalar → Scalar
integer_or none other = other
integer_or (some i) other = Scalar.integer i

-- `parse_scalar`
unfoldable pub parse_scalar : (String → Bool) → String → Scalar
unfolding parse_i64 boolean_or_text trim contains
parse_scalar is_float s = integer_or (parse_i64 (trim s)) (
    if is_float (trim s) && contains (trim s) "."
    then Scalar.float (trim s)
    else boolean_or_text (trim s))

-- `key.replace('.', "_")`
unfoldable pub underscored : String → String
underscored [] = []
underscored (c ∷ s) = let rest = underscored s in if eqb (code c) 46 then "_" ++ₛ rest else c ∷ rest

-- `ENV_PREFIX`
abbrev pub env_prefix : String
env_prefix = "AFSC_"

-- `env_name_for`
unfoldable pub env_name_for : String → String
unfolding to_ascii_uppercase underscored
env_name_for key = env_prefix ++ₛ to_ascii_uppercase (underscored key)
