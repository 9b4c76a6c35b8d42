-- ===== src/Numbers/Tests.antt =====
-- Numbers printed and read back.
use os_exercises.Base.{
  ℕ, ◌+◌, ◌-◌, ◌≡◌, refl, ◌<◌, some, List, [], ◌∷◌, ◌++◌, arith, length, if◌then◌else◌, ◌==◌, All,
}
use os_exercises.Strings.{Mem}
use os_exercises.Numbers.{pads, printnum, digit_char, print_decimal, strtol}
use os_exercises.Numbers.Digits.{printnum-value, IsDecimal, value}
use os_exercises.Numbers.RoundTrip.{strtol-print_decimal}

-- "-42" at 5
abbrev text : List ℕ
text = 45 ∷ 52 ∷ 50 ∷ []

abbrev bytes : Mem
bytes x = if x == 5 then 45 else (if x == 6 then 52 else (if x == 7 then 50 else 0))

shown : print_decimal 10 4294967254 0 32 ≡ some text
unfolding print_decimal printnum digit_char pads
shown = refl

strtol-print_decimal_example : strtol 4 bytes 5 10 ≡ some (4294967254, 5 + length text)
strtol-print_decimal_example =
    strtol-print_decimal 4 bytes 5 4294967254 32 text (omega arith) shown
      (refl, omega arith, (refl, omega arith, (refl, omega arith, refl))) (omega arith)

printnum-value_example :
    (cs : List ℕ) × (printnum 10 42 10 5 48 ≡ some (pads (5 - length cs) 48 ++ cs))
    × All IsDecimal cs
    × (value 0 cs ≡ 42)
    × (0 < length cs)
printnum-value_example = printnum-value 10 42 5 48 (omega arith) (omega arith)
