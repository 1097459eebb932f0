-- ===== src/Remediation/Propose/Tests.antt =====
-- src/remediation/propose.rs: the policy and the sessions at concrete worktrees.
use automated_flywheel_setup.Base.{
  String, ◌≡◌, ◌≢◌, ◌↔◌, refl, true, some, [], ◌∷◌, All, lines, words, pieces, parse_usize,
  strip_prefix, trim, contains, arith,
}
use automated_flywheel_setup.Remediation.Propose.{
  find_plus, known_installers_block, hunks_within, output, Worktree, PolicyVerdict, inspected,
  check_policy,
}
use automated_flywheel_setup.Remediation.Propose.Block.{IsBlock, known_installers_block-IsBlock}
use automated_flywheel_setup.Remediation.Propose.Hunks.{headers, StaysIn, hunks_within_iff}
use automated_flywheel_setup.Remediation.Propose.Policy.{IsPermitted, check_policy-IsPermitted_iff}

abbrev security : String
security = "set -e\nKNOWN_INSTALLERS=(\n  [a]=1\n)\nverify a\nrun a\n"

abbrev edit : String
edit = "@@ -3 +3 @@\n-  [a]=0\n+  [a]=1\n"

-- Lines that stood behind the block and are gone.
abbrev removal : String
removal = "@@ -5,1 +4,0 @@\n-check_all a\n"

abbrev edited : Worktree
edited = record {
  add = output "";
  names = output "checksums.yaml\nscripts/lib/security.sh\n";
  diff = output edit;
  text = security;
  file_diff = output edit;
}

block_found : known_installers_block security ≡ some (2, 4)
unfolding known_installers_block lines trim contains
block_found = refl

-- The header of a hunk that only removes names the line in front of the gap, here the block's last.
removal_behind : hunks_within removal (2, 4) ≡ true
unfolding hunks_within lines words pieces parse_usize strip_prefix
removal_behind = refl

known_installers_block-IsBlock_example : IsBlock 1 (lines security) (2, 4)
known_installers_block-IsBlock_example = known_installers_block-IsBlock security (2, 4) block_found

hunks_within_iff_example :
    (hunks_within edit (2, 4) ≡ true)
    ↔ ((headers (lines edit) ≢ []) × All (StaysIn (2, 4)) (headers (lines edit)))
unfolding lines words pieces parse_usize strip_prefix find_plus
hunks_within_iff_example = hunks_within_iff edit (2, 4) (omega arith, tt)

abbrev clean_verdict : PolicyVerdict
clean_verdict = record {
  changed = "checksums.yaml" ∷ "scripts/lib/security.sh" ∷ [];
  violations = [];
  diff = edit;
}

edited_clean : check_policy edited ≡ inspected clean_verdict
unfolding check_policy hunks_within lines words pieces parse_usize strip_prefix trim contains
edited_clean = refl

check_policy-IsPermitted_iff_example :
    (clean_verdict.violations ≡ []) ↔ All (IsPermitted edited) clean_verdict.changed
check_policy-IsPermitted_iff_example =
    check_policy-IsPermitted_iff edited clean_verdict edited_clean
