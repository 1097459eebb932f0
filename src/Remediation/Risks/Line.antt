-- ===== src/Remediation/Risks/Line.antt =====
-- src/remediation/outcome.rs: which command a line of an advice mentions.
use text.Mathlib.Text.{starts_with}
use text.Mathlib.TextEquality.{starts_with_iff}
use text.Mathlib.TextPositions.{slice-append_right, len-append, starts_with-append}
use Prim.Native.String.{len, slice}
use automated_flywheel_setup.Base.{
  ◌%◌, eqb, String, ◌++ₛ◌, ◌≡◌, ◌⊎◌, ◌↔◌, refl, sym, ap, ◌∙◌, Bool, true, false, Option, none, some,
  List, Bool-cases, inl, inr, arith, trim, is_empty, count_by, strip_prefix, strip_suffix_char,
  first_code, first_code-append, if◌then◌else◌,
}
use automated_flywheel_setup.Remediation.Risks.{quoted_command, prompt_command, fenced_command}

-- A line that opens or closes a fence.
abbrev pub is_fence : String → Bool
is_fence line = starts_with (trim line) "```"

-- Behind these lines a fence is open: an odd number of them are fence lines.
abbrev pub is_inside : List String → Bool
is_inside before = eqb (count_by is_fence before % 2) 1

-- What a line mentions outside of a fence: the text behind a prompt, also where both stand in backquotes.
abbrev pub IsPrompt : String → String → Type 0
IsPrompt t command =
    ("$ " ++ₛ command ≡ t)
    ⊎ ((inner : String) × ("`$ " ++ₛ inner ≡ t) × (strip_suffix_char 96 inner ≡ some command))

-- What it mentions inside of one: itself, unless it is empty or a comment.
abbrev pub IsScriptLine : String → String → Type 0
IsScriptLine t command = (t ≡ command) × (is_empty t ≡ false) × (starts_with t "#" ≡ false)

abbrev pub Mentions : Bool → String → String → Type 0
Mentions true line command = IsScriptLine (trim line) command
Mentions false line command = IsPrompt (trim line) command

-- A line of the advice, with the lines before it, mentions a command.
abbrev pub IsMentioned : List String → String → String → Type 0
IsMentioned before line command = (is_fence line ≡ false) × Mentions (is_inside before) line command

strip_prefix-append : (p u : String) → strip_prefix (p ++ₛ u) p ≡ some u
unfolding strip_prefix
strip_prefix-append p u =
    let starts = starts_with-append p u in
    let rest : slice (p ++ₛ u) (len p) (len (p ++ₛ u)) ≡ u =
      ap (slice (p ++ₛ u) (len p)) (len-append p u) ∙ slice-append_right p u in
    simp starts (ap (λ (t : String). some t) rest)

strip_prefix-starts : (s p u : String) → strip_prefix s p ≡ some u → starts_with s p ≡ true
unfolding strip_prefix
strip_prefix-starts s p u h = elim (Bool-cases (starts_with s p)) [
  | inl starts ↦ starts
  | inr other ↦ absurd (cc (simp other at h))
]

strip_prefix_iff : (s p u : String) → (strip_prefix s p ≡ some u) ↔ (p ++ₛ u ≡ s)
strip_prefix_iff s p u = (there, λ e. ap (λ t. strip_prefix t p) (sym e) ∙ strip_prefix-append p u)
  where
    there : strip_prefix s p ≡ some u → p ++ₛ u ≡ s
    there h =
        let (v, e) = (starts_with_iff s p).0 (strip_prefix-starts s p u h) in
        let found = strip_prefix-append p v in
        let given : strip_prefix (p ++ₛ v) p ≡ some u = ap (λ t. strip_prefix t p) e ∙ h in
        let same : v ≡ u = cc (found, given) in ap (λ t. p ++ₛ t) (sym same) ∙ e

-- No text has both prompts in front.
one_prompt : (t a b : String) → "$ " ++ₛ a ≡ t → "`$ " ++ₛ b ≡ t → ⊥
one_prompt t a b e f =
    let dollar : first_code ("$ " ++ₛ a) ≡ 36 = first_code-append "$ " a refl in
    let quote : first_code ("`$ " ++ₛ b) ≡ 96 = first_code-append "`$ " b refl in
    let both : first_code ("$ " ++ₛ a) ≡ first_code ("`$ " ++ₛ b) = ap first_code (e ∙ sym f) in
    omega (arith, dollar, quote, both)

quoted_command_iff :
    (t command : String)
    → (quoted_command t ≡ some command)
      ↔ ((inner : String) × ("`$ " ++ₛ inner ≡ t) × (strip_suffix_char 96 inner ≡ some command))
unfolding quoted_command
quoted_command_iff t command = by_prefix (strip_prefix t "`$ ") refl
  where
    by_prefix :
        (o : Option String)
        → strip_prefix t "`$ " ≡ o
        → (elim o [ none ↦ none | some rest ↦ strip_suffix_char 96 rest ] ≡ some command)
          ↔ ((inner : String) × ("`$ " ++ₛ inner ≡ t) × (strip_suffix_char 96 inner ≡ some command))
    by_prefix none at = (
      (λ h. absurd (cc h)),
      (λ (inner, e, last).
          let found = (strip_prefix_iff t "`$ " inner).1 e in absurd (cc (at, found))),
    )
    by_prefix (some rest) at = (
      (λ h. (rest, (strip_prefix_iff t "`$ " rest).0 at, h)),
      (λ (inner, e, last).
          let found = (strip_prefix_iff t "`$ " inner).1 e in
          let same : rest ≡ inner = cc (at, found) in ap (strip_suffix_char 96) same ∙ last),
    )

prompt_command_iff : (t command : String) → (prompt_command t ≡ some command) ↔ IsPrompt t command
unfolding prompt_command
prompt_command_iff t command = by_prefix (strip_prefix t "$ ") refl
  where
    by_prefix :
        (o : Option String)
        → strip_prefix t "$ " ≡ o
        → (elim o [ none ↦ quoted_command t | some c ↦ some c ] ≡ some command) ↔ IsPrompt t command
    by_prefix (some c) at = (
      (λ h. inl ((strip_prefix_iff t "$ " command).0 (at ∙ h))),
      (λ h. elim h [
        | inl e ↦ sym at ∙ (strip_prefix_iff t "$ " command).1 e
        | inr (inner, e, last) ↦ absurd (one_prompt t c inner ((strip_prefix_iff t "$ " c).0 at) e)
      ]),
    )
    by_prefix none at = (
      (λ h. inr ((quoted_command_iff t command).0 h)),
      (λ h. elim h [
        | inl e ↦ (let found = (strip_prefix_iff t "$ " command).1 e in absurd (cc (at, found)))
        | inr quoted ↦ (quoted_command_iff t command).1 quoted
      ]),
    )

fenced_command_iff :
    (t command : String) → (fenced_command t ≡ some command) ↔ IsScriptLine t command
fenced_command_iff t command = elim (Bool-cases (is_empty t)) [
  | inl empty ↦ simp empty ((λ h. absurd (cc h)), (λ h. absurd (cc (h.1))))
  | inr full ↦ elim (Bool-cases (starts_with t "#")) [
    | inl comment ↦ simp (full, comment) ((λ h. absurd (cc h)), (λ h. absurd (cc (h.2))))
    | inr other ↦
        simp (full, other) ((λ h. (cc h, refl, refl)), (λ h. ap (λ (s : String). some s) h.0))
  ]
]

-- The command of a line, by whether it is a fence line and stands in a fence.
abbrev pub line_command : Bool → Bool → String → Option String
line_command true in_fence line = none
line_command false in_fence line =
    if in_fence then fenced_command (trim line) else prompt_command (trim line)

pub line_command_iff :
    (fence in_fence : Bool) (line command : String)
    → (line_command fence in_fence line ≡ some command)
      ↔ ((fence ≡ false) × Mentions in_fence line command)
line_command_iff true in_fence line command = ((λ h. absurd (cc h)), (λ h. absurd (cc (h.0))))
line_command_iff false true line command =
    let i = fenced_command_iff (trim line) command in ((λ h. (refl, i.0 h)), (λ h. i.1 h.1))
line_command_iff false false line command =
    let i = prompt_command_iff (trim line) command in ((λ h. (refl, i.0 h)), (λ h. i.1 h.1))
