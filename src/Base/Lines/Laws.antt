-- ===== src/Base/Lines/Laws.antt =====
-- What `lines()` gives of lines that are written one behind the other.
use Prim.Native.Char.{Char, code}
use Prim.Native.String.{String, [], ◌∷◌, ◌++◌}
use mathlib.Core.Path.{◌≡◌, refl, ap, sym, ◌∙◌}
use mathlib.Core.Bool.{Bool, true, false, not, ◌&&◌}
use mathlib.Core.List.{List}
use native.Mathlib.Omega.{arith}
use text.Mathlib.TextLemmas.{nil-append, cons-append, append-nil, append_assoc}
use automated_flywheel_setup.Base.Tests.{eqb}
use automated_flywheel_setup.Base.Lists.{All}
use automated_flywheel_setup.Base.Lines.{snoc, strip_cr, lines_from, lines}

-- The text has no line end and no carriage return.
abbrev pub is_line : String → Bool
is_line [] = true
is_line (c ∷ s) = not (eqb (code c) 10) && not (eqb (code c) 13) && is_line s

-- `writeln!` of each line
unfoldable pub unlines : List String → String
unlines List.[] = []
unlines (List.◌∷◌ l ls) = l ++ ("\n" ++ unlines ls)

strip_cr-is_line : (s : String) → is_line s ≡ true → strip_cr s ≡ s
unfolding strip_cr
strip_cr-is_line [] h = refl
strip_cr-is_line (c ∷ s) h =
    let rest = strip_cr-is_line s (ground arith) in
    let free : eqb (code c) 13 ≡ false = ground arith in simp free (ap (λ (t : String). c ∷ t) rest)

is_line-append : (s t : String) → is_line s ≡ true → is_line t ≡ true → is_line (s ++ t) ≡ true
is_line-append [] t h k = rw (nil-append t) k
is_line-append (c ∷ s) t h k =
    rw (cons-append c s t) (let rest = is_line-append s t (ground arith) k in ground arith)

newline-append : (s : String) → "\n" ++ s ≡ "\n" ∷ s
newline-append s = cons-append "\n" [] s ∙ ap (λ (t : String). "\n" ∷ t) (nil-append s)

snoc-append : (cur l : String) (c : Char) → snoc cur c ++ l ≡ cur ++ (c ∷ l)
snoc-append cur l c =
    append_assoc cur (c ∷ []) l
    ∙ ap (λ (t : String). cur ++ t) (cons-append c [] l ∙ ap (λ (t : String). c ∷ t) (nil-append l))

-- A line is read up to its end.
lines_from-line :
    (cur l s : String)
    → is_line cur ≡ true
    → is_line l ≡ true
    → lines_from cur (l ++ ("\n" ++ s)) ≡ List.◌∷◌ (cur ++ l) (lines_from "" s)
unfolding lines_from
lines_from-line cur [] s h k =
    ap (lines_from cur) (nil-append ("\n" ++ s) ∙ newline-append s)
    ∙ ap (λ (t : String). List.◌∷◌ t (lines_from "" s))
        (strip_cr-is_line cur h ∙ sym (append-nil cur))
lines_from-line cur (c ∷ l) s h k =
    let inside : eqb (code c) 10 ≡ false = ground arith in
    let one : is_line (c ∷ []) ≡ true = ground arith in
    let rest =
      lines_from-line (snoc cur c) l s (is_line-append cur (c ∷ []) h one) (ground arith) in
    ap (lines_from cur) (cons-append c l ("\n" ++ s))
    ∙ step inside
    ∙ rest
    ∙ ap (λ (t : String). List.◌∷◌ t (lines_from "" s)) (snoc-append cur l c)
  where
    step :
        eqb (code c) 10 ≡ false
        → lines_from cur (c ∷ (l ++ ("\n" ++ s))) ≡ lines_from (snoc cur c) (l ++ ("\n" ++ s))
    step inside =
        ap
          (λ (b : Bool). elim b as (λ _. List String) [
            | true ↦ List.◌∷◌ (strip_cr cur) (lines_from "" (l ++ ("\n" ++ s)))
            | false ↦ lines_from (snoc cur c) (l ++ ("\n" ++ s))
          ])
          inside

-- Lines that are written one behind the other are read back.
pub lines-unlines : (ls : List String) → All (λ l. is_line l ≡ true) ls → lines (unlines ls) ≡ ls
unfolding lines unlines
lines-unlines List.[] h = refl
lines-unlines (List.◌∷◌ l ls) (here, later) =
    lines_from-line "" l (unlines ls) refl here
    ∙ ap (λ (t : String). List.◌∷◌ t (lines_from "" (unlines ls))) (nil-append l)
    ∙ ap (List.◌∷◌ l) (lines-unlines ls later)
