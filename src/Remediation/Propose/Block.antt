-- ===== src/Remediation/Propose/Block.antt =====
-- src/remediation/propose.rs: which lines `known_installers_block` finds.
use automated_flywheel_setup.Base.{
  ℕ, suc, ◌+◌, String, ◌≡◌, refl, ap, true, false, some, List, [], ◌∷◌, ◌++◌, All, length, lines,
  Bool-cases, inl, inr, arith,
}
use automated_flywheel_setup.Remediation.Propose.{
  opens_block, closes_block, block_end, block_from, known_installers_block,
}

abbrev pub NoneOpens : List String → Type 0
NoneOpens = All (λ line. opens_block line ≡ false)

abbrev pub NoneCloses : List String → Type 0
NoneCloses = All (λ line. closes_block line ≡ false)

-- The lines are some that do not open a block, one that does, some that do not close it, one that does,
-- and others; and the range, counted from `n`, goes from the one to the other.
pub record IsBlock (n : ℕ) (ls : List String) (range : ℕ × ℕ) : Type 0 where
  pub before : List String
  pub opener : String
  pub inside : List String
  pub closer : String
  pub behind : List String
  pub whole : ls ≡ before ++ opener ∷ (inside ++ closer ∷ behind)
  pub none_opens : NoneOpens before
  pub opens : opens_block opener ≡ true
  pub none_closes : NoneCloses inside
  pub closes : closes_block closer ≡ true
  pub start : range.0 ≡ n + length before
  pub end : range.1 ≡ range.0 + length inside + 1

-- What is found behind an opening line.
record IsEnd (start n : ℕ) (ls : List String) (range : ℕ × ℕ) : Type 0 where
  inside : List String
  closer : String
  behind : List String
  whole : ls ≡ inside ++ closer ∷ behind
  none_closes : NoneCloses inside
  closes : closes_block closer ≡ true
  first : range.0 ≡ start
  last : range.1 ≡ n + length inside

block_end-IsEnd :
    (start n : ℕ) (ls : List String) (range : ℕ × ℕ)
    → block_end start n ls ≡ some range
    → IsEnd start n ls range
unfolding block_end
block_end-IsEnd start n [] range h = absurd (cc)
block_end-IsEnd start n (line ∷ rest) range h = elim (Bool-cases (closes_block line)) [
  | inl closes ↦
      let e = simp closes at h in
      record {
        inside = [];
        closer = line;
        behind = rest;
        whole = refl;
        none_closes = tt;
        closes = closes;
        first = ground arith;
        last = ground arith;
      }
  | inr open_still ↦
      let r = block_end-IsEnd start (suc n) rest range (simp open_still at h) in
      record {
        inside = line ∷ r.inside;
        closer = r.closer;
        behind = r.behind;
        whole = ap (◌∷◌ line) r.whole;
        none_closes = (open_still, r.none_closes);
        closes = r.closes;
        first = r.first;
        last = omega (arith, r.last);
      }
]

block_from-IsBlock :
    (n : ℕ) (ls : List String) (range : ℕ × ℕ) → block_from n ls ≡ some range → IsBlock n ls range
unfolding block_from
block_from-IsBlock n [] range h = absurd (cc)
block_from-IsBlock n (line ∷ rest) range h = elim (Bool-cases (opens_block line)) [
  | inl opens ↦
      let r = block_end-IsEnd n (suc n) rest range (simp opens at h) in
      record {
        before = [];
        opener = line;
        inside = r.inside;
        closer = r.closer;
        behind = r.behind;
        whole = ap (◌∷◌ line) r.whole;
        none_opens = tt;
        opens = opens;
        none_closes = r.none_closes;
        closes = r.closes;
        start = omega (arith, r.first);
        end = omega (arith, r.first, r.last);
      }
  | inr closed ↦
      let r = block_from-IsBlock (suc n) rest range (simp closed at h) in
      record {
        before = line ∷ r.before;
        opener = r.opener;
        inside = r.inside;
        closer = r.closer;
        behind = r.behind;
        whole = ap (◌∷◌ line) r.whole;
        none_opens = (closed, r.none_opens);
        opens = r.opens;
        none_closes = r.none_closes;
        closes = r.closes;
        start = omega (arith, r.start);
        end = r.end;
      }
]

-- The range goes from the first line that opens the block of known installers to the first behind it
-- that closes it, counted from 1.
pub known_installers_block-IsBlock :
    (text : String) (range : ℕ × ℕ)
    → known_installers_block text ≡ some range
    → IsBlock 1 (lines text) range
unfolding known_installers_block
known_installers_block-IsBlock text range h = block_from-IsBlock 1 (lines text) range h
