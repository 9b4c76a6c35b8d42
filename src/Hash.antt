-- ===== src/Hash.antt =====
-- The hash of libs/hash.c and the random numbers of libs/rand.c.
pub mod Bounds
mod Tests
use os_exercises.Base.{ℕ, ◌+◌, ◌-◌, ◌*◌, ◌/◌, ◌%◌, ◌^◌}

-- GOLDEN_RATIO_PRIME_32.
abbrev pub golden_ratio : ℕ
golden_ratio = 0x9e370001

unfoldable pub hash32 : ℕ → ℕ → ℕ
hash32 val bits = val * golden_ratio % 2 ^ 32 / 2 ^ (32 - bits)

-- RAND_MAX.
abbrev pub rand_max : ℕ
rand_max = 2147483647

-- The new `next`, and the result.
unfoldable pub rand : ℕ → ℕ × ℕ
rand next =
    let next = (next * 0x5deece66d + 11) % 2 ^ 64 % 2 ^ 48 in (next, next / 2 ^ 12 % (rand_max + 1))
