-- ===== src/Remediation/Propose/Policy.antt =====
-- src/remediation/propose.rs: what an edit session without violations has changed.
use automated_flywheel_setup.Base.{
  ℕ, String, ◌≡◌, ◌↔◌, refl, Bool, true, false, Option, List, [], ◌∷◌, ◌==ₛ◌, All, lines,
  Bool-cases, inl, inr,
}
use automated_flywheel_setup.Remediation.Propose.{
  path_allowed, known_installers_block, Git, output, git_failed, Worktree, PolicyVerdict, Inspected,
  inspected, not_inspected, in_block, and_violation, check_block, check_paths, check_outputs,
  check_policy, changed_paths,
}

-- The changes that git prints are in the block.
abbrev pub changes_in_block : Git → Option (ℕ × ℕ) → Bool
changes_in_block (git_failed _) block = false
changes_in_block (output file_diff) block = in_block file_diff block

-- The path is allowed, and if it is `security.sh`, its changes are in the block of known installers.
abbrev pub IsPermitted : Worktree → String → Type 0
IsPermitted w path =
    (path_allowed path ≡ true)
    × ((path ==ₛ "scripts/lib/security.sh") ≡ true
        → changes_in_block w.file_diff (known_installers_block w.text) ≡ true)

-- What the loop gives, if it gives a verdict.
abbrev pub Describes : Worktree → List String → List String → Inspected → Type 0
Describes w changed paths (not_inspected _) = Unit {0}
Describes w changed paths (inspected r) =
    (r.changed ≡ changed) × ((r.violations ≡ []) ↔ All (IsPermitted w) paths)

permitted :
    (w : Worktree) (changed rest : List String) (path : String) (later : Inspected)
    → IsPermitted w path
    → Describes w changed rest later
    → Describes w changed (path ∷ rest) later
permitted w changed rest path (not_inspected e) p d = tt
permitted w changed rest path (inspected r) p (same, (there, back)) =
    (same, ((λ h. (p, there h)), (λ h. back h.1)))

violated :
    (w : Worktree) (changed rest : List String) (path v : String) (later : Inspected)
    → (IsPermitted w path → ⊥)
    → Describes w changed rest later
    → Describes w changed (path ∷ rest) (and_violation v later)
violated w changed rest path v (not_inspected e) p d = tt
violated w changed rest path v (inspected r) p (same, (there, back)) =
    (same, ((λ h. absurd (cc)), (λ h. absurd (p h.0))))

check_block-Describes :
    (w : Worktree) (changed rest : List String) (path : String) (later : Inspected) (answer : Git)
    → path_allowed path ≡ true
    → (path ==ₛ "scripts/lib/security.sh") ≡ true
    → w.file_diff ≡ answer
    → Describes w changed rest later
    → Describes w changed (path ∷ rest) (check_block w path later answer)
unfolding check_block
check_block-Describes w changed rest path later (git_failed e) allowed security read d = tt
check_block-Describes w changed rest path later (output file_diff) allowed security read d =
    elim (Bool-cases (in_block file_diff (known_installers_block w.text))) [
      | inl within ↦
          simp within (permitted w changed rest path later (allowed, λ _. rw read within) d)
      | inr outside ↦ simp outside (violated w changed rest path _ later (refuse outside) d)
    ]
  where
    refuse : in_block file_diff (known_installers_block w.text) ≡ false → IsPermitted w path → ⊥
    refuse outside p = let within = rw read at (p.1 security) in absurd (cc)

check_paths-Describes :
    (w : Worktree) (start : PolicyVerdict) (paths : List String)
    → start.violations ≡ []
    → Describes w start.changed paths (check_paths w start paths)
unfolding check_paths
check_paths-Describes w start [] h = (refl, ((λ _. tt), (λ _. h)))
check_paths-Describes w start (path ∷ rest) h =
    let later = check_paths-Describes w start rest h in
    elim (Bool-cases (path_allowed path)) [
      | inr refused ↦ simp refused (
          violated w start.changed rest path _ (check_paths w start rest) (λ p. absurd (cc (p.0)))
            later)
      | inl allowed ↦ elim (Bool-cases (path ==ₛ "scripts/lib/security.sh")) [
        | inl security ↦
            simp (allowed, security)
              (check_block-Describes w start.changed rest path (check_paths w start rest)
                w.file_diff allowed security refl later)
        | inr other ↦
            simp (allowed, other)
              (permitted w start.changed rest path (check_paths w start rest)
                (allowed, λ same. absurd (cc)) later)
      ]
    ]

-- When the policy's check gives a verdict, it has no violation exactly if every path that git names as
-- changed is allowed, and the changes of `security.sh`, if it is one of them, stay in the block of the
-- known installers of the edited file.
pub check_policy-IsPermitted_iff :
    (w : Worktree) (r : PolicyVerdict)
    → check_policy w ≡ inspected r
    → (r.violations ≡ []) ↔ All (IsPermitted w) r.changed
unfolding check_policy
check_policy-IsPermitted_iff w r h = by_outputs w.add w.names w.diff h
  where
    by_outputs :
        (add names diff : Git)
        → check_outputs w add names diff ≡ inspected r
        → (r.violations ≡ []) ↔ All (IsPermitted w) r.changed
    by_outputs (git_failed e) names diff k = absurd (cc)
    by_outputs (output a) (git_failed e) diff k = absurd (cc)
    by_outputs (output a) (output names) (git_failed e) k = absurd (cc)
    by_outputs (output a) (output names) (output diff) k =
        let paths = changed_paths (lines names) in
        let described =
          check_paths-Describes w (record { changed = paths; violations = []; diff = diff }) paths
            refl in
        let (same, there) = rw k at described in rw same there
