-- ===== src/Classifier/Explain.antt =====
-- src/parser/classifier.rs: `explain` against `classify_error`.
use automated_flywheel_setup.Base.{
  ℕ, String, ◌≡◌, refl, true, false, Option, none, some, List, [], ◌∷◌, arith, contains, any,
  is_some, if◌then◌else◌,
}
use automated_flywheel_setup.Base.Int.{ℤ, pos, is_nat}
use automated_flywheel_setup.Classifier.{
  timeout_marker, cancelled_marker, post_install_marker, Engine, compiled, matches,
}
use automated_flywheel_setup.Classifier.Patterns.{
  timeout_patterns, syntax_patterns, bootstrap_patterns, checksum_patterns, network_patterns,
  apt_repair_patterns, root_refusal_patterns, permission_patterns, dependency_patterns,
  resource_patterns, libc_patterns, apt_lock_patterns, oom_patterns,
}
use automated_flywheel_setup.Classifier.Rules.{
  classify_error, first_found, explain_groups, explain_code, explain,
}

-- The category of an explanation; a text that nothing explains is "unknown".
abbrev pub explained : Option (String × String × ℕ) → String
explained none = "unknown"
explained (some (category, pattern, start)) = category

module _ (e : Engine) (stderr : String) where
  first_found-any :
      (ps : List String) → is_some (first_found e stderr ps) ≡ any (λ p. e.is_match p stderr) ps
  unfolding first_found
  first_found-any [] = refl
  first_found-any (p ∷ ps) = ground (arith, e.is_match-find p stderr, first_found-any ps)

  first_found-matches :
      (ps : List String) → is_some (first_found e stderr (compiled e ps)) ≡ matches e ps stderr
  unfolding matches
  first_found-matches ps = first_found-any (compiled e ps)

  -- One group of `explain` is one test of `classify_error`.
  explained-cons :
      (category : String) (ps : List String) (rest : List (String × List String))
      (last : Option (String × String × ℕ))
      → explained
          (elim (explain_groups e stderr ((category, ps) ∷ rest)) [ some f ↦ some f | none ↦ last ])
        ≡ (if matches e ps stderr
            then category
            else explained (elim (explain_groups e stderr rest) [ some f ↦ some f | none ↦ last ]))
  unfolding explain_groups
  explained-cons category ps rest last = ground (arith, first_found-matches ps)

  explained-explain :
      (exit_code : ℤ)
      → explained (explain e stderr exit_code) ≡ (
          if matches e timeout_patterns stderr
          then "timeout"
          else if matches e bootstrap_patterns stderr
          then "bootstrap_mismatch"
          else if matches e checksum_patterns stderr
          then "checksum_mismatch"
          else if matches e network_patterns stderr
          then "network"
          else if matches e apt_repair_patterns stderr
          then "apt_repair_failed"
          else if matches e root_refusal_patterns stderr
          then "permission"
          else if matches e permission_patterns stderr
          then "permission"
          else if matches e dependency_patterns stderr
          then "dependency"
          else if matches e resource_patterns stderr
          then "resource"
          else if matches e syntax_patterns stderr
          then "syntax_error"
          else explained (explain_code exit_code))
  unfolding explain
  explained-explain exit_code = simp explained-cons (unfold explain_groups in refl)

-- `explain` is about the captured text and the exit code alone. Where the text has no marker of the
-- runner, no pattern of the groups that only `classify_error` tries matches, and the exit code is
-- none of the three that decide, the explanation has the category of the classification, and a
-- failure is unexplained exactly if its category is "unknown". The regex library is assumed to find
-- the literal "Permission denied" by a pattern that spells it.
explain-classify_error :
    (e : Engine) (stderr : String) (exit_code : ℤ)
    → (contains stderr "Permission denied" ≡ true → matches e permission_patterns stderr ≡ true)
    → contains stderr cancelled_marker ≡ false
    → contains stderr timeout_marker ≡ false
    → contains stderr post_install_marker ≡ false
    → matches e apt_lock_patterns stderr ≡ false
    → matches e libc_patterns stderr ≡ false
    → matches e oom_patterns stderr ≡ false
    → (is_nat exit_code 126 ≡ false)
      × (is_nat exit_code 127 ≡ false)
      × (is_nat exit_code 137 ≡ false)
    → explained (explain e stderr exit_code) ≡ (classify_error e stderr exit_code).category
unfolding classify_error
explain-classify_error e stderr exit_code literal c t p apt libc oom codes =
    ground (arith, explained-explain e stderr exit_code)

-- With exit code 127 and a text that matches a dependency pattern ("command not found", say) and
-- nothing that both functions try before it, `explain` names the category "dependency" where the
-- classification is "command_not_found".
explain_127 :
    (e : Engine) (stderr : String)
    → matches e dependency_patterns stderr ≡ true
    → contains stderr cancelled_marker ≡ false
    → contains stderr timeout_marker ≡ false
    → contains stderr post_install_marker ≡ false
    → (matches e timeout_patterns stderr ≡ false)
      × (matches e bootstrap_patterns stderr ≡ false)
      × (matches e checksum_patterns stderr ≡ false)
      × (matches e apt_lock_patterns stderr ≡ false)
      × (matches e network_patterns stderr ≡ false)
      × (matches e apt_repair_patterns stderr ≡ false)
      × (matches e root_refusal_patterns stderr ≡ false)
      × (matches e permission_patterns stderr ≡ false)
    → (explained (explain e stderr (pos 127)) ≡ "dependency")
      × ((classify_error e stderr (pos 127)).category ≡ "command_not_found")
unfolding classify_error
explain_127 e stderr found c t p none_before =
    (ground (arith, explained-explain e stderr (pos 127)), ground arith)
