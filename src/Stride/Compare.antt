-- ===== src/Stride/Compare.antt =====
-- The comparison of strides, which wrap round at 2 ^ 32.
use os_exercises.Base.{ℕ, ◌+◌, ◌%◌, ◌^◌, ◌≤◌, ◌<◌, ◌≡◌, arith, ltb}
use os_exercises.Stride.{stride_less, pass, big_stride}

-- Strides are numbers `v` of which the low 32 bits are kept. As long as two of them are less than
-- 2 ^ 31 apart, the code compares them as the unbounded numbers compare.
pub stride_less-ltb :
    (v w : ℕ) → v < w + 2 ^ 31 → w < v + 2 ^ 31 → stride_less (v % 2 ^ 32) (w % 2 ^ 32) ≡ ltb v w
unfolding stride_less
stride_less-ltb v w h k = ground arith

pub pass-le : (priority : ℕ) → pass priority ≤ big_stride
unfolding pass
pass-le priority = ground arith
