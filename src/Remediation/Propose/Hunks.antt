-- ===== src/Remediation/Propose/Hunks.antt =====
-- src/remediation/propose.rs: which diffs `hunks_within` takes to be within a block.
use automated_flywheel_setup.Base.{
  ℕ, String, ◌≡◌, ◌≢◌, ◌↔◌, refl, Bool, true, false, Option, none, some, List, [], ◌∷◌, All, lines,
  strip_prefix, words, pieces, unwrap_or, max, ◌+◌, ◌^◌, ◌≤◌, ◌<◌, arith, eqb, ◌%◌, ◌-◌,
  if◌then◌else◌, Bool-cases, inl, inr,
}
use automated_flywheel_setup.Remediation.Propose.{
  find_plus, number_at, tail_of, hunk_range, leaves_block, hunk_step, hunks_from, hunks_within,
}

-- What stands behind the plus, at its commas.
abbrev new_part : String → List String
new_part header =
    pieces 44 (unwrap_or (strip_prefix (unwrap_or (find_plus (words header)) "+0") "+") "")

-- The headers of a diff's hunks.
abbrev or_header : Option String → List String → List String
or_header none rest = rest
or_header (some header) rest = header ∷ rest

abbrev pub headers : List String → List String
headers [] = []
headers (line ∷ rest) = or_header (strip_prefix line "@@ ") (headers rest)

-- The number in front of a comma and the one behind it, in the first word of a header that begins with a
-- plus: where the hunk begins in the new file, and how many lines it has there.
abbrev pub new_start : String → ℕ
new_start header = number_at (new_part header) 0

abbrev pub new_length : String → ℕ
new_length header = number_at (tail_of (new_part header)) 1

-- The sum of the two is no more than a `usize` holds.
abbrev pub IsSmall : String → Type 0
IsSmall header = new_start header + new_length header < 2 ^ 64

-- Each line that the header counts is a line of the block; where it counts none, the line that it names is.
abbrev pub StaysIn : ℕ × ℕ → String → Type 0
StaysIn (first, last) header =
    (n : ℕ)
    → new_start header ≤ n
    → n < new_start header + max (new_length header) 1
    → (first ≤ n) × (n ≤ last)

-- The code's test of a header.
abbrev InRange : ℕ × ℕ → String → Type 0
InRange block header = leaves_block block (hunk_range header) ≡ false

range-within :
    (first last start len : ℕ)
    → start + len < 2 ^ 64
    → (leaves_block
          (first, last)
          (if eqb len 0 then (start, start) else (start, (start + len + (2 ^ 64 - 1)) % 2 ^ 64))
        ≡ false)
      ↔ ((n : ℕ) → start ≤ n → n < start + max len 1 → (first ≤ n) × (n ≤ last))
range-within first last start len small = (
  (λ h n from to. ground arith),
  (λ h.
      let begins = h start (omega arith) (omega arith) in
      let ends = h (start + max len 1 - 1) (omega arith) (omega arith) in ground arith),
)

InRange-StaysIn :
    (block : ℕ × ℕ) (header : String) → IsSmall header → InRange block header ↔ StaysIn block header
unfolding hunk_range
InRange-StaysIn (first, last) header small =
    range-within first last (new_start header) (new_length header) small

All-InRange :
    (block : ℕ × ℕ) (hs : List String)
    → All IsSmall hs
    → All (InRange block) hs ↔ All (StaysIn block) hs
All-InRange block [] small = ((λ h. tt), (λ h. tt))
All-InRange block (header ∷ hs) (here, small) =
    let one = InRange-StaysIn block header here in
    let more = All-InRange block hs small in
    ((λ h. (one.0 h.0, more.0 h.1)), (λ h. (one.1 h.0, more.1 h.1)))

-- A round, by its header; `hs` are the headers behind it.
hunk_step_iff :
    (block : ℕ × ℕ) (same seen : Bool) (hs : List String) (P : Type 0) (o : Option String)
    → (same ≡ true) ↔ (P × All (InRange block) hs)
    → (seen ≡ true) ↔ All (InRange block) hs
    → ((hunk_step block same seen o ≡ true)
        ↔ (((o ≡ none → P)) × All (InRange block) (or_header o hs)))
unfolding hunk_step
hunk_step_iff block same seen hs P none a b =
    ((λ h. ((λ _. (a.0 h).0), (a.0 h).1)), (λ h. a.1 (h.0 refl, h.1)))
hunk_step_iff block same seen hs P (some header) a b =
    elim (Bool-cases (leaves_block block (hunk_range header))) [
      | inl leaves ↦ simp leaves ((λ h. absurd (cc)), (λ h. absurd (cc (h.1.0))))
      | inr stays ↦ simp stays ((λ h. ((λ e. absurd (cc)), (refl, b.0 h))), (λ h. b.1 h.1.1))
    ]

hunks_from-seen :
    (block : ℕ × ℕ) (ls : List String)
    → (hunks_from block true ls ≡ true) ↔ All (InRange block) (headers ls)
unfolding hunks_from
hunks_from-seen block [] = ((λ h. tt), (λ h. refl))
hunks_from-seen block (line ∷ rest) =
    let (there, back) = hunks_from-seen block rest in
    let step =
      hunk_step_iff block (hunks_from block true rest) (hunks_from block true rest) (headers rest)
        (Unit {0}) (strip_prefix line "@@ ") ((λ h. (tt, there h)), (λ h. back h.1))
        (there, back) in
    ((λ h. (step.0 h).1), (λ h. step.1 ((λ _. tt), h)))

or_header-nonempty :
    (o : Option String) (hs : List String) → (or_header o hs ≢ []) ↔ (o ≡ none → hs ≢ [])
or_header-nonempty none hs = ((λ h _. h), (λ h. h refl))
or_header-nonempty (some header) hs = ((λ h e. absurd (cc)), (λ h e. absurd (cc)))

hunks_from-unseen :
    (block : ℕ × ℕ) (ls : List String)
    → (hunks_from block false ls ≡ true) ↔ ((headers ls ≢ []) × All (InRange block) (headers ls))
unfolding hunks_from
hunks_from-unseen block [] = ((λ h. absurd (cc)), (λ h. absurd (h.0 refl)))
hunks_from-unseen block (line ∷ rest) =
    let step =
      hunk_step_iff block (hunks_from block false rest) (hunks_from block true rest) (headers rest)
        (headers rest ≢ []) (strip_prefix line "@@ ") (hunks_from-unseen block rest)
        (hunks_from-seen block rest) in
    let nonempty = or_header-nonempty (strip_prefix line "@@ ") (headers rest) in
    ((λ h. (nonempty.1 (step.0 h).0, (step.0 h).1)), (λ h. step.1 (nonempty.0 h.0, h.1)))

-- A diff, of which each header's numbers add up to what a `usize` holds, is within the block exactly if it
-- has a hunk, and each line of the new file that a hunk's header counts is a line of the block; of a header
-- that counts none, as of lines that are only removed, the line that it names is one.
pub hunks_within_iff :
    (diff : String) (block : ℕ × ℕ)
    → All IsSmall (headers (lines diff))
    → (hunks_within diff block ≡ true)
      ↔ ((headers (lines diff) ≢ []) × All (StaysIn block) (headers (lines diff)))
unfolding hunks_within
hunks_within_iff diff block small =
    let loop = hunks_from-unseen block (lines diff) in
    let same = All-InRange block (headers (lines diff)) small in
    ((λ h. ((loop.0 h).0, same.0 (loop.0 h).1)), (λ h. loop.1 (h.0, same.1 h.1)))
