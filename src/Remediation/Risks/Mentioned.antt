-- ===== src/Remediation/Risks/Mentioned.antt =====
-- src/remediation/outcome.rs: which commands `annotate_risks` takes an advice to mention.
use mathlib.Core.Path.{subst}
use automated_flywheel_setup.Base.{
  String, ◌≡◌, ◌↔◌, refl, ap, Bool, true, false, not, Option, none, some, List, [], ◌∷◌, ◌++◌, All,
  arith, lines, trim, if◌then◌else◌,
}
use automated_flywheel_setup.Classifier.{Engine}
use automated_flywheel_setup.Remediation.Safety.{is_command_safe}
use automated_flywheel_setup.Remediation.Risks.{
  prompt_command, or_push, fenced_command, commands_from, annotate_risks, notes_of-none_iff,
}
use automated_flywheel_setup.Remediation.Risks.Line.{
  is_fence, is_inside, Mentions, IsMentioned, line_command, line_command_iff,
}

-- Changed where the first is true.
abbrev flip : Bool → Bool → Bool
flip b f = if b then not f else f

commands_from-cons :
    (f : Bool) (line : String) (rest : List String)
    → commands_from f (line ∷ rest)
      ≡ or_push (line_command (is_fence line) f line) (commands_from (flip (is_fence line) f) rest)
unfolding commands_from
commands_from-cons f line rest = by_fence (is_fence line)
  where
    by_fence :
        (b : Bool)
        → elim b [
          | true ↦ commands_from (not f) rest
          | false ↦
              or_push
                (if f then fenced_command (trim line) else prompt_command (trim line))
                (commands_from f rest)
        ]
          ≡ or_push (line_command b f line) (commands_from (flip b f) rest)
    by_fence true = refl
    by_fence false = refl

flip-is_inside :
    (f : Bool) (line : String) (before : List String)
    → flip (is_inside before) (flip (is_fence line) f) ≡ flip (is_inside (line ∷ before)) f
flip-is_inside f line before = ground arith

All-or_push :
    (P : String → Type 0) (o : Option String) (cs : List String)
    → All P (or_push o cs) ↔ (((c : String) → o ≡ some c → P c) × All P cs)
All-or_push P none cs = ((λ h. ((λ c e. absurd (cc e)), h)), (λ h. h.1))
All-or_push P (some d) cs =
    ((λ h. ((λ c e. (let same : d ≡ c = cc e in rw same at h.0)), h.1)), (λ h. (h.0 d refl, h.1)))

-- Each command that a line mentions is taken, by the lines before it.
each_mentioned :
    (P : String → Type 0) (f : Bool) (before : List String) (line : String) (rest : List String)
    (command : String)
    → All P (commands_from f (before ++ line ∷ rest))
    → is_fence line ≡ false
    → Mentions (flip (is_inside before) f) line command
    → P command
each_mentioned P f [] line rest command h plain mentions =
    let taken = rw (commands_from-cons f line rest) at h in
    let found = (line_command_iff (is_fence line) f line command).1 (plain, mentions) in
    ((All-or_push P _ _).0 taken).0 command found
each_mentioned P f (l ∷ before) line rest command h plain mentions =
    let taken = rw (commands_from-cons f l (before ++ line ∷ rest)) at h in
    each_mentioned P (flip (is_fence l) f) before line rest command ((All-or_push P _ _).0 taken).1
      plain (rw (flip-is_inside f l before) mentions)

-- And only those.
only_mentioned :
    (P : String → Type 0) (f : Bool) (ls : List String)
    → ((before : List String) (line : String) (rest : List String) (command : String)
        → ls ≡ before ++ line ∷ rest
        → is_fence line ≡ false
        → Mentions (flip (is_inside before) f) line command
        → P command)
    → All P (commands_from f ls)
only_mentioned P f [] h = unfold commands_from in tt
only_mentioned P f (l ∷ ls) h = rw (commands_from-cons f l ls) (
    (All-or_push P _ _).1 (
      (λ c e.
          let (plain, mentions) = (line_command_iff (is_fence l) f l c).0 e in
          h [] l ls c refl plain mentions),
      only_mentioned P (flip (is_fence l) f) ls (λ before line rest command e plain mentions.
          h (l ∷ before) line rest command (ap (◌∷◌ l) e) plain
            (rw (flip-is_inside f l before) at mentions)),
    ))

flip-false : (b : Bool) → flip b false ≡ b
flip-false true = refl
flip-false false = refl

module _ (e : Engine) where
  -- An advice has no notes exactly if each command that a line of it mentions passes the safety check: inside
  -- of a fence, behind an odd number of fence lines, a line that is not empty and no comment, without the
  -- blanks around it; outside, what stands behind a prompt, also where both stand in backquotes.
  pub annotate_risks-none_iff :
      (suggestion : String)
      → (annotate_risks e suggestion ≡ []) ↔ (
          (before : List String) (line : String) (rest : List String) (command : String)
          → lines suggestion ≡ before ++ line ∷ rest
          → IsMentioned before line command
          → (is_command_safe e command).safe ≡ true)
  unfolding annotate_risks
  annotate_risks-none_iff suggestion =
      let P : String → Type 0 = λ c. (is_command_safe e c).safe ≡ true in
      let ls = lines suggestion in
      let (there, back) = notes_of-none_iff e (commands_from false ls) in
      (
        (λ h before line rest command split (plain, mentions).
            each_mentioned P false before line rest command
              (subst (λ x. All P (commands_from false x)) split (there h)) plain
              (rw (flip-false (is_inside before)) mentions)),
        (λ h. back (
            only_mentioned P false ls (λ before line rest command split plain mentions.
              h before line rest command split
                (plain, rw (flip-false (is_inside before)) at mentions)))),
      )
