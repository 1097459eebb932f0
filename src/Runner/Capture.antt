-- ===== src/Runner/Capture.antt =====
-- src/runner/installer.rs: `bound_capture` and `tail`. A `&str` is a native text, whose positions
-- count bytes of UTF-8; captured bytes are a list of numbers, and `String::from_utf8_lossy` is the
-- argument `lossy`.
mod Tests
use Prim.Native.String.{len, slice}
use text.Mathlib.Text.{is_char_boundary}
use text.Mathlib.TextBridge.{IsPrefix}
use text.Mathlib.TextEquality.{slice-prefix}
use text.Mathlib.TextPositions.{boundary-append, boundary-len, len-append, slice-append_right}
use native.Mathlib.Decide.{dec_lt}
use text.Mathlib.TextLemmas.{nil-append}
use automated_flywheel_setup.Base.{
  ℕ, zero, suc, ◌+◌, ◌-◌, ◌*◌, ◌/◌, ◌≤◌, ◌<◌, String, ◌++ₛ◌, ◌≡◌, refl, sym, ap, ◌∙◌, Bool, true,
  false, ◌||◌, List, [], ◌∷◌, ◌++◌, arith, length, length-take, length-drop, take, drop,
  take-append-drop, Bool-cases, inl, inr, ◌⊎◌, leb, eqb, leb→le, concat, show, if◌then◌else◌,
}

-- `DEFAULT_MAX_CAPTURE_BYTES`
abbrev pub default_max_capture_bytes : ℕ
default_max_capture_bytes = 4 * 1024 * 1024

unfoldable pub bound_capture : (List ℕ → String) → List ℕ → ℕ → String
bound_capture lossy buf max_bytes =
    if eqb max_bytes 0 || leb (length buf) max_bytes
    then lossy buf
    else let head_len = max_bytes / 4 in
      let tail_len = max_bytes - head_len in
      let dropped = length buf - head_len - tail_len in
      concat (
        lossy (take head_len buf)
        ∷ "\n[afsc: truncated "
        ∷ show dropped
        ∷ " bytes of output]\n"
        ∷ lossy (drop (length buf - tail_len) buf)
        ∷ [])

-- The `while` loop of `tail`, on the bytes left: the end of the text is a boundary.
unfoldable pub next_boundary : ℕ → String → ℕ → ℕ
next_boundary zero text start = start
next_boundary (suc fuel) text start =
    let later = next_boundary fuel text (start + 1) in
    if is_char_boundary text start then start else later

unfoldable pub tail : String → ℕ → String
tail text max_bytes =
    if leb (len text) max_bytes
    then text
    else slice text (next_boundary max_bytes text (len text - max_bytes)) (len text)

-- The parts of a capture of more than `max_bytes` bytes, with the text that shows it.
abbrev pub IsTruncated : (List ℕ → String) → List ℕ → ℕ → Type 0
IsTruncated lossy buf max_bytes =
    (head : List ℕ) × (middle : List ℕ) × (last : List ℕ) × (buf ≡ head ++ (middle ++ last))
    × (length head ≡ max_bytes / 4)
    × (length head + length last ≡ max_bytes)
    × (bound_capture lossy buf max_bytes
        ≡ concat (
            lossy head
            ∷ "\n[afsc: truncated "
            ∷ show (length middle)
            ∷ " bytes of output]\n"
            ∷ lossy last
            ∷ []))

take-nil : (n : ℕ) → take {A = ℕ} n [] ≡ []
take-nil zero = refl
take-nil (suc n) = refl

-- A list is cut at two places.
cut : (xs : List ℕ) (a b : ℕ) → a ≤ b → take a xs ++ (take (b - a) (drop a xs) ++ drop b xs) ≡ xs
cut xs zero b h = let e : b - 0 ≡ b = omega arith in rw e (take-append-drop b xs)
cut xs (suc a) zero h = absurd (omega arith)
cut [] (suc a) (suc b) h = rw (take-nil (suc b - suc a))
cut (x ∷ xs) (suc a) (suc b) h =
    let e : suc b - suc a ≡ b - a = omega arith in rw e (ap (◌∷◌ x) (cut xs a b (omega arith)))

-- Of a capture longer than a bound above 0 the first quarter of the bound is kept and as many of the
-- last bytes as it has left, and the marker between them tells how many bytes are missing.
bound_capture-IsTruncated :
    (lossy : List ℕ → String) (buf : List ℕ) (max_bytes : ℕ)
    → 0 < max_bytes
    → max_bytes < length buf
    → IsTruncated lossy buf max_bytes
unfolding bound_capture
bound_capture-IsTruncated lossy buf max_bytes pos long = (
  take head_len buf,
  take (from - head_len) (drop head_len buf),
  drop from buf,
  sym (cut buf head_len from (omega arith)),
  omega (arith, length-take head_len buf),
  omega (arith, length-take head_len buf, length-drop from buf),
  rw shown_length (ground arith),
)
  where
    head_len : ℕ
    head_len = max_bytes / 4

    from : ℕ
    from = length buf - (max_bytes - max_bytes / 4)

    shown_length :
        length (take (from - head_len) (drop head_len buf))
        ≡ length buf - head_len - (max_bytes - head_len)
    shown_length =
        omega (arith, length-take (from - head_len) (drop head_len buf), length-drop head_len buf)

-- A text that begins with `p` has a boundary where `p` ends.
split_at :
    (text : String) (i : ℕ)
    → is_char_boundary text i ≡ true
    → (p : String) × (t : String) × (text ≡ p ++ₛ t) × (len p ≡ i)
split_at text i h =
    let (t, whole) = slice-prefix text i in (slice text 0 i, t, sym whole, ground arith)

next_boundary-IsLeast :
    (fuel : ℕ) (text : String) (start : ℕ)
    → len text ≤ start + fuel
    → start ≤ len text
    → (is_char_boundary text (next_boundary fuel text start) ≡ true)
      × (start ≤ next_boundary fuel text start)
      × ((j : ℕ) → start ≤ j → is_char_boundary text j ≡ true → next_boundary fuel text start ≤ j)
unfolding next_boundary
next_boundary-IsLeast zero text start enough h =
    let e : start ≡ len text = omega arith in (rw e (boundary-len text), omega arith, λ j q r. q)
next_boundary-IsLeast (suc fuel) text start enough h =
    elim (Bool-cases (is_char_boundary text start)) [
      | inl here ↦ rw here (here, omega arith, λ j q r. q)
      | inr not_here ↦
          let (found, after, least) =
            next_boundary-IsLeast fuel text (start + 1) (omega arith) (before_end not_here) in
          rw not_here (found, omega arith, λ j q r. least j (later not_here j q r) r)
    ]
  where
    before_end : is_char_boundary text start ≡ false → start + 1 ≤ len text
    before_end no_boundary = elim (dec_lt start (len text)) [
      | yes p ↦ omega arith
      | no p ↦
          let e : start ≡ len text = omega arith in
          cc (boundary-len text, ap (is_char_boundary text) e)
    ]

    later :
        is_char_boundary text start ≡ false
        → (j : ℕ) → start ≤ j
        → is_char_boundary text j ≡ true
        → start + 1 ≤ j
    later no_boundary j q r = elim (dec_lt start j) [
      | yes p ↦ omega arith
      | no p ↦ let e : start ≡ j = omega arith in cc (ap (is_char_boundary text) e)
    ]

len_parts : (text p t : String) → text ≡ p ++ₛ t → len text ≡ len p + len t
len_parts text p t e = ap len e ∙ len-append p t

len_right : (text p t : String) → text ≡ p ++ₛ t → len t ≤ len text
len_right text p t e = omega (arith, len_parts text p t e)

boundary_at : (text p t : String) → text ≡ p ++ₛ t → is_char_boundary text (len p) ≡ true
boundary_at text p t e = ap (λ s. is_char_boundary s (len p)) e ∙ boundary-append p t

slice_after : (text p t : String) (i : ℕ) → text ≡ p ++ₛ t → len p ≡ i → slice text i (len text) ≡ t
slice_after text p t i e h =
    let at_end : slice text (len p) (len p + len t) ≡ t =
      ap (λ s. slice s (len p) (len p + len t)) e ∙ slice-append_right p t in
    rw (len_parts text p t e, ← h) at_end

-- `tail` is the longest end of the text that has at most `max_bytes` bytes and begins with a whole
-- character: the text is what it drops and what it keeps, and no other cut keeps more.
pub tail-IsLongest :
    (text : String) (max_bytes : ℕ)
    → (p : String) × (text ≡ p ++ₛ tail text max_bytes)
      × (len (tail text max_bytes) ≤ max_bytes)
      × ((q t : String) → text ≡ q ++ₛ t → len t ≤ max_bytes → len t ≤ len (tail text max_bytes))
unfolding tail
tail-IsLongest text max_bytes = elim (Bool-cases (leb (len text) max_bytes)) [
  | inl short ↦
      rw short ("", sym (nil-append text), leb→le _ _ short, λ q t e h. len_right text q t e)
  | inr long ↦
      let over : max_bytes < len text = ground arith in
      let start = next_boundary max_bytes text (len text - max_bytes) in
      let (found, after, least) =
        next_boundary-IsLeast max_bytes text (len text - max_bytes) (omega arith) (omega arith) in
      let (p, t, whole, p_len) = split_at text start found in
      let total : len text ≡ len p + len t = len_parts text p t whole in
      rw (long, slice_after text p t start whole p_len)
        (
          p,
          whole,
          omega arith,
          λ q u e h.
              let parts = len_parts text q u e in
              let at_u = least (len q) (omega arith) (boundary_at text q u e) in omega arith,
        )
]
