-- ===== src/Hash/Bounds.antt =====
-- How large the results are.
use os_exercises.Base.{ℕ, ◌^◌, ◌<◌, ◌≤◌, arith}
use os_exercises.Hash.{hash32, rand, rand_max}

-- A hash of 10 bits, as for the lists of processes, is below 2^10; a random number is at most RAND_MAX,
-- and the state of the generator stays below 2^48.
pub hash32-rand :
    (val next : ℕ)
    → (hash32 val 10 < 2 ^ 10) × ((rand next).1 ≤ rand_max) × ((rand next).0 < 2 ^ 48)
unfolding hash32 rand
hash32-rand val next = (omega arith, omega arith, omega arith)
