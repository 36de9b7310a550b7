-- ===== src/Wnet/Iwd/Convert/Bounds.antt =====
-- The signal quality of internal/wnet/iwd/convert.go is a percentage.
use wfm.Prelude.{arith}
use wfm.Prelude.Int.{ℤ, pos, negsuc, ◌≤ℤ◌, quot}
use wfm.Wnet.Iwd.Convert.{dbm_to_quality, signal_to_quality}

dbm_to_quality_bounds :
    (a b : ℤ)
    → a ≤ℤ b
    → (pos 0 ≤ℤ dbm_to_quality a)
      × (dbm_to_quality a ≤ℤ dbm_to_quality b)
      × (dbm_to_quality b ≤ℤ pos 100)
unfolding dbm_to_quality
dbm_to_quality_bounds (pos a) (pos b) h = ground arith
dbm_to_quality_bounds (pos a) (negsuc b) h = ground arith
dbm_to_quality_bounds (negsuc a) (pos b) h = ground arith
dbm_to_quality_bounds (negsuc a) (negsuc b) h = ground arith

quot-≤ : (a b : ℤ) → a ≤ℤ b → quot a 100 ≤ℤ quot b 100
quot-≤ (pos a) (pos b) h = ground arith
quot-≤ (pos a) (negsuc b) h = ground arith
quot-≤ (negsuc a) (pos b) h = ground arith
quot-≤ (negsuc a) (negsuc b) h = ground arith

-- The quality of a signal is between 0 and 100, and a stronger signal has no lower quality.
pub signal_to_quality_bounds :
    (a b : ℤ)
    → a ≤ℤ b
    → (pos 0 ≤ℤ signal_to_quality a)
      × (signal_to_quality a ≤ℤ signal_to_quality b)
      × (signal_to_quality b ≤ℤ pos 100)
unfolding signal_to_quality
signal_to_quality_bounds a b h = dbm_to_quality_bounds (quot a 100) (quot b 100) (quot-≤ a b h)
