-- ===== src/Strings/Tests.antt =====
-- Strings of libs/string.c in a concrete memory.
use os_exercises.Base.{ℕ, ◌≡◌, refl, some, List, [], ◌∷◌, arith, if◌then◌else◌, ◌==◌}
use os_exercises.Strings.{Mem, ℤ, negsuc, difference, strcmp, x86_memmove, memmove}
use os_exercises.Strings.Memory.{Holds}
use os_exercises.Strings.Overlap.{x86_memmove-memmove}
use os_exercises.Strings.Order.{sign, dictionary, strcmp-dictionary}

-- "ab" at 10, "abc" at 20, NULs elsewhere.
abbrev bytes : Mem
bytes x =
    if x == 10
    then 97
    else (if x == 11
        then 98
        else (if x == 20 then 97 else (if x == 21 then 98 else (if x == 22 then 99 else 0))))

abbrev ab : List ℕ
ab = 97 ∷ 98 ∷ []

abbrev abc : List ℕ
abc = 97 ∷ 98 ∷ 99 ∷ []

ab-Holds : Holds bytes 10 ab
ab-Holds = (refl, omega arith, (refl, omega arith, refl))

abc-Holds : Holds bytes 20 abc
abc-Holds = (refl, omega arith, (refl, omega arith, (refl, omega arith, refl)))

strcmp-dictionary_example : (z : ℤ) × (strcmp 9 bytes 10 20 ≡ some z) × (sign z ≡ dictionary ab abc)
strcmp-dictionary_example = strcmp-dictionary 9 bytes 10 20 ab abc ab-Holds abc-Holds (omega arith)

compared : strcmp 9 bytes 10 20 ≡ some (negsuc 98)
unfolding strcmp difference
compared = refl

-- The areas overlap.
x86_memmove-memmove_example : x86_memmove 21 20 3 bytes 22 ≡ memmove 21 20 3 bytes 22
x86_memmove-memmove_example = x86_memmove-memmove 21 20 3 bytes 22
