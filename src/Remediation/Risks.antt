-- ===== src/Remediation/Risks.antt =====
-- src/remediation/outcome.rs: `annotate_risks`, the dangerous commands that an advice mentions.
pub mod Line
pub mod Mentioned
use text.Mathlib.Text.{starts_with}
use automated_flywheel_setup.Base.{
  String, ◌≡◌, ◌↔◌, refl, ap, ◌∙◌, Bool, true, false, not, ◌&&◌, Option, none, some, List, [], ◌∷◌,
  All, Bool-cases, inl, inr, arith, lines, trim, is_empty, strip_prefix, strip_suffix_char,
  unwrap_or, if◌then◌else◌,
}
use automated_flywheel_setup.Classifier.{Engine}
use automated_flywheel_setup.Remediation.Safety.{
  RiskLevel, safe_level, low, medium, high, critical, SafetyCheck, is_command_safe,
}
use automated_flywheel_setup.Remediation.Outcome.{RiskNote}

-- A line outside of a fence: `$ command`, or the same in backquotes.
unfoldable pub quoted_command : String → Option String
quoted_command t = elim (strip_prefix t "`$ ") [
  | none ↦ none
  | some rest ↦ strip_suffix_char 96 rest
]

unfoldable pub prompt_command : String → Option String
unfolding quoted_command
prompt_command t = elim (strip_prefix t "$ ") [
  | none ↦ quoted_command t
  | some command ↦ some command
]

abbrev pub or_push : Option String → List String → List String
or_push none rest = rest
or_push (some command) rest = command ∷ rest

-- A line inside of a fence, unless it is a comment.
abbrev pub fenced_command : String → Option String
fenced_command t = if not (is_empty t) && not (starts_with t "#") then some t else none

-- The loop over the lines, with `in_fence`.
unfoldable pub commands_from : Bool → List String → List String
unfolding prompt_command
commands_from in_fence [] = []
commands_from in_fence (line ∷ rest) =
    let t = trim line in
    elim (starts_with t "```") [
      | true ↦ commands_from (not in_fence) rest
      | false ↦
          or_push (if in_fence then fenced_command t else prompt_command t)
            (commands_from in_fence rest)
    ]

-- `{:?}` of a risk level
abbrev pub debug_level : RiskLevel → String
debug_level safe_level = "Safe"
debug_level low = "Low"
debug_level medium = "Medium"
debug_level high = "High"
debug_level critical = "Critical"

-- `High | Critical`
abbrev pub is_grave : RiskLevel → Bool
is_grave high = true
is_grave critical = true
is_grave _ = false

module _ (e : Engine) where
  abbrev pub note_of : String → SafetyCheck → RiskNote
  note_of command check = record {
    command = command;
    risk = debug_level check.risk_level;
    reason = unwrap_or check.reason "";
  }

  unfoldable pub notes_of : List String → List RiskNote
  notes_of [] = []
  notes_of (command ∷ rest) =
      let notes = notes_of rest in
      let check = is_command_safe e command in
      if is_grave check.risk_level then note_of command check ∷ notes else notes

  -- `annotate_risks`
  unfoldable pub annotate_risks : String → List RiskNote
  unfolding commands_from notes_of
  annotate_risks suggestion = notes_of (commands_from false (lines suggestion))

  -- Whether the check's level is grave, by the command's safety.
  is_grave-safe :
      (command : String)
      → is_grave (is_command_safe e command).risk_level ≡ not (is_command_safe e command).safe
  unfolding is_command_safe
  is_grave-safe command = ground arith

  pub notes_of-none_iff :
      (commands : List String)
      → (notes_of commands ≡ []) ↔ All (λ c. (is_command_safe e c).safe ≡ true) commands
  unfolding notes_of
  notes_of-none_iff [] = (λ h. tt, λ h. refl)
  notes_of-none_iff (command ∷ rest) =
      let (there, back) = notes_of-none_iff rest in
      elim (Bool-cases (is_command_safe e command).safe) [
        | inl safe ↦
            let harmless : is_grave (is_command_safe e command).risk_level ≡ false =
              is_grave-safe command ∙ ap not safe in
            simp harmless ((λ h. (safe, there h)), (λ h. back h.1))
        | inr unsafe ↦
            let grave : is_grave (is_command_safe e command).risk_level ≡ true =
              is_grave-safe command ∙ ap not unsafe in
            simp grave ((λ h. cc), (λ h. cc))
      ]
