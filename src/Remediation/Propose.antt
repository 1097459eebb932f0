-- ===== src/Remediation/Propose.antt =====
-- src/remediation/propose.rs: the file policy of an edit session. What git and the disk answer is a
-- record; each call of git gives its trimmed output, or fails with a message.
pub mod Hunks
pub mod Policy
pub mod Block
pub mod Gate
pub mod Session
mod Tests
use text.Mathlib.Text.{starts_with}
use automated_flywheel_setup.Base.{
  ℕ, zero, suc, ◌+◌, ◌-◌, ◌%◌, ◌^◌, String, Bool, true, false, not, ◌&&◌, ◌||◌, Option, none, some,
  List, [], ◌∷◌, ◌==ₛ◌, any, has_text, contains, concat, lines, trim, is_empty, words, pieces,
  parse_usize, strip_prefix, unwrap_or, leb, ltb, eqb, if◌then◌else◌,
}

-- `POLICY_FILES`, `POLICY_PREFIXES`
abbrev pub policy_files : List String
policy_files = "checksums.yaml" ∷ "scripts/lib/security.sh" ∷ []

abbrev pub policy_prefixes : List String
policy_prefixes = "scripts/generated/" ∷ []

-- `path_allowed`
unfoldable pub path_allowed : String → Bool
path_allowed path = has_text policy_files path || any (λ p. starts_with path p) policy_prefixes

abbrev pub opens_block : String → Bool
opens_block line = contains line "KNOWN_INSTALLERS=("

abbrev pub closes_block : String → Bool
closes_block line = trim line ==ₛ ")"

-- The loop behind the line that opens the block, which has number `start`; `n` is the next line's.
unfoldable pub block_end : ℕ → ℕ → List String → Option (ℕ × ℕ)
block_end start n [] = none
block_end start n (line ∷ rest) =
    let later = block_end start (suc n) rest in if closes_block line then some (start, n) else later

unfoldable pub block_from : ℕ → List String → Option (ℕ × ℕ)
unfolding block_end
block_from n [] = none
block_from n (line ∷ rest) =
    let later = block_from (suc n) rest in
    if opens_block line then block_end n (suc n) rest else later

-- `known_installers_block`
unfoldable pub known_installers_block : String → Option (ℕ × ℕ)
unfolding block_from
known_installers_block text = block_from 1 (lines text)

-- `find(|t| t.starts_with('+'))`
unfoldable pub find_plus : List String → Option String
find_plus [] = none
find_plus (t ∷ rest) = let later = find_plus rest in if starts_with t "+" then some t else later

-- The `n`-th number between the commas, or a default.
abbrev pub number_at : List String → ℕ → ℕ
number_at [] default = default
number_at (s ∷ _) default = unwrap_or (parse_usize s) default

abbrev pub tail_of : List String → List String
tail_of [] = []
tail_of (_ ∷ rest) = rest

-- The lines of the new file that a hunk's header names, the first and the last; sums of `usize` wrap.
unfoldable pub hunk_range : String → ℕ × ℕ
unfolding find_plus
hunk_range header =
    let plus = unwrap_or (find_plus (words header)) "+0" in
    let parts = pieces 44 (unwrap_or (strip_prefix plus "+") "") in
    let start = number_at parts 0 in
    let len = number_at (tail_of parts) 1 in
    if eqb len 0 then (start, start) else (start, (start + len + (2 ^ 64 - 1)) % 2 ^ 64)

abbrev pub leaves_block : ℕ × ℕ → ℕ × ℕ → Bool
leaves_block (first, last) (start, end) = ltb start first || ltb last end

-- One line: what the loop gives behind it, with `saw_hunk` as it is and set.
unfoldable pub hunk_step : ℕ × ℕ → Bool → Bool → Option String → Bool
unfolding hunk_range
hunk_step block same seen none = same
hunk_step block same seen (some header) =
    if leaves_block block (hunk_range header) then false else seen

-- The loop over the lines, with `saw_hunk`.
unfoldable pub hunks_from : ℕ × ℕ → Bool → List String → Bool
unfolding hunk_step
hunks_from block saw [] = saw
hunks_from block saw (line ∷ rest) =
    let same = hunks_from block saw rest in
    let seen = hunks_from block true rest in hunk_step block same seen (strip_prefix line "@@ ")

-- `hunks_within`
unfoldable pub hunks_within : String → ℕ × ℕ → Bool
unfolding hunks_from
hunks_within diff block = hunks_from block false (lines diff)

-- `Result<String>` of a call of git
pub data Git : Type 0 where
  output : String → Git
  git_failed : String → Git

-- What git and the disk answer: `text` is `security.sh`, or "" if it cannot be read.
pub record Worktree : Type 0 where
  pub add : Git
  pub names : Git
  pub diff : Git
  pub text : String
  pub file_diff : Git

pub record PolicyVerdict : Type 0 where
  pub changed : List String
  pub violations : List String
  pub diff : String

-- `Result<PolicyVerdict>`
pub data Inspected : Type 0 where
  inspected : PolicyVerdict → Inspected
  not_inspected : String → Inspected

-- `filter(|s| !s.is_empty())` of the trimmed lines
unfoldable pub changed_paths : List String → List String
changed_paths [] = []
changed_paths (line ∷ rest) =
    let later = changed_paths rest in if is_empty (trim line) then later else trim line ∷ later

abbrev pub in_block : String → Option (ℕ × ℕ) → Bool
in_block file_diff none = false
in_block file_diff (some block) = hunks_within file_diff block

abbrev pub and_violation : String → Inspected → Inspected
and_violation v (not_inspected e) = not_inspected e
and_violation v (inspected r) = inspected (record r { violations = v ∷ r.violations })

module _ (w : Worktree) where
  -- A change of `security.sh`, with what the rounds behind give.
  unfoldable pub check_block : String → Inspected → Git → Inspected
  unfolding known_installers_block
  check_block path later (git_failed e) = not_inspected e
  check_block path later (output file_diff) =
      if in_block file_diff (known_installers_block w.text)
      then later
      else and_violation (concat (path ∷ ": changes outside the KNOWN_INSTALLERS block" ∷ [])) later

  -- The loop over the changed paths.
  unfoldable pub check_paths : PolicyVerdict → List String → Inspected
  unfolding check_block path_allowed
  check_paths r [] = inspected r
  check_paths r (path ∷ rest) =
      let later = check_paths r rest in
      if not (path_allowed path)
      then and_violation (concat (path ∷ ": not in the edit policy" ∷ [])) later
      else if path ==ₛ "scripts/lib/security.sh"
      then check_block path later w.file_diff
      else later

  unfoldable pub check_outputs : Git → Git → Git → Inspected
  unfolding check_paths changed_paths
  check_outputs (git_failed e) _ _ = not_inspected e
  check_outputs (output _) (git_failed e) _ = not_inspected e
  check_outputs (output _) (output _) (git_failed e) = not_inspected e
  check_outputs (output _) (output names) (output diff) =
      let changed = changed_paths (lines names) in
      check_paths (record { changed = changed; violations = []; diff = diff }) changed

  -- `check_policy`
  unfoldable pub check_policy : Inspected
  unfolding check_outputs
  check_policy = check_outputs w.add w.names w.diff
