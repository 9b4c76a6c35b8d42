-- ===== src/Hash/Tests.antt =====
-- The hash and the random numbers at concrete values.
use os_exercises.Base.{◌≡◌, refl}
use os_exercises.Hash.{hash32}

hashed : hash32 2 10 ≡ 241
unfolding hash32
hashed = refl
