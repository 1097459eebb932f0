-- ===== src/Runner/Capture/Tests.antt =====
-- The theorems of the captured output at concrete texts.
use Prim.Native.String.{len}
use automated_flywheel_setup.Base.{ℕ, String, ◌++ₛ◌, ◌≡◌, ◌≤◌, List, [], ◌∷◌}
use automated_flywheel_setup.Runner.Capture.{tail, tail-IsLongest}

abbrev ten_bytes : List ℕ
ten_bytes = 1 ∷ 2 ∷ 3 ∷ 4 ∷ 5 ∷ 6 ∷ 7 ∷ 8 ∷ 9 ∷ 10 ∷ []

tail-IsLongest_example :
    (p : String) × ("naïve" ≡ p ++ₛ tail "naïve" 3)
    × (len (tail "naïve" 3) ≤ 3)
    × ((q t : String) → "naïve" ≡ q ++ₛ t → len t ≤ 3 → len t ≤ len (tail "naïve" 3))
tail-IsLongest_example = tail-IsLongest "naïve" 3
