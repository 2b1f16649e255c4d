-- ===== src/Follower/Scan/Planned.antt =====
-- Which blocks a scan asks for.
use nns.Base.{
  All, List, Option, [], ap, arith, length, min, none, refl, saturating_add, saturating_sub, some,
  suc, zero, ℕ, ◌+◌, ◌-◌, ◌<◌, ◌^◌, ◌∙◌, ◌∷◌, ◌≡◌, ◌≤◌,
}
use nns.Base.Text.{Str}
use nns.Follower.Scan.{batch_heights, follower_scan_batch_blocks, heights_from}

-- Heights one after the other, without a gap, from a given one on.
pub data Consecutive : ℕ → List ℕ → Type 0 where
  none_left : {n : ℕ} → Consecutive n []
  next_one : {n : ℕ} {hs : List ℕ} → Consecutive (suc n) hs → Consecutive n (n ∷ hs)

heights_from-Consecutive : (lo count : ℕ) → Consecutive lo (heights_from lo count)
heights_from-Consecutive lo zero = none_left
heights_from-Consecutive lo (suc count) = next_one (heights_from-Consecutive (suc lo) count)

widen :
    (lo mid hi : ℕ) (hs : List ℕ)
    → lo ≤ mid
    → All (λ h. (mid ≤ h) × (h ≤ hi)) hs
    → All (λ h. (lo ≤ h) × (h ≤ hi)) hs
widen lo mid hi [] l k = tt
widen lo mid hi (h ∷ hs) l k = ((omega arith, k.0.1), widen lo mid hi hs l k.1)

heights_from-bounds :
    (lo count hi : ℕ) → lo + count ≤ suc hi → All (λ h. (lo ≤ h) × (h ≤ hi)) (heights_from lo count)
heights_from-bounds lo zero hi l = tt
heights_from-bounds lo (suc count) hi l = (
  (omega arith, omega arith),
  widen lo (suc lo) hi (heights_from (suc lo) count) (omega arith)
      (heights_from-bounds (suc lo) count hi (omega arith)),
)

length-heights_from : (lo count : ℕ) → length (heights_from lo count) ≡ count
length-heights_from lo zero = refl
length-heights_from lo (suc count) = ap suc (length-heights_from (suc lo) count)

follower_scan_batch_blocks-pos : (variable : Option Str) → 0 < follower_scan_batch_blocks variable
unfolding follower_scan_batch_blocks
follower_scan_batch_blocks-pos none = omega arith
follower_scan_batch_blocks-pos (some s) = ground arith

-- A batch that starts at a height which is final consists of consecutive heights from that one on,
-- without a gap, none of them above the final height, and it has as many as the batch size, or as many as are
-- final, whichever is smaller. The final height has 64 bits.
pub batch_heights-bounds :
    (variable : Option Str) (start finalized : ℕ)
    → start ≤ finalized
    → finalized < 2 ^ 64
    → Consecutive start (batch_heights variable start finalized)
      × All (λ h. (start ≤ h) × (h ≤ finalized)) (batch_heights variable start finalized)
      × (length (batch_heights variable start finalized)
          ≡ min (follower_scan_batch_blocks variable) (suc finalized - start))
unfolding batch_heights
batch_heights-bounds variable start finalized l u =
    let pos = follower_scan_batch_blocks-pos variable in
    let n = follower_scan_batch_blocks variable in
    let count = suc (min (saturating_add start (saturating_sub n 1)) finalized) - start in
    (
      heights_from-Consecutive start count,
      heights_from-bounds start count finalized (omega arith),
      length-heights_from start count ∙ omega arith,
    )
