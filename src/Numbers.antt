-- ===== src/Numbers.antt =====
-- Numbers to text by printnum of libs/printfmt.c, and text to numbers by strtol of libs/string.c.
-- A `long` is a word of 32 bits. The characters that are printed are a list, and a width below 1 asks
-- for no padding, as 0 does.
pub mod Digits
pub mod RoundTrip
pub mod Tests
use os_exercises.Base.{
  ℕ, zero, suc, ◌+◌, ◌-◌, ◌*◌, ◌/◌, ◌%◌, ◌^◌, Bool, true, false, ◌&&◌, ◌||◌, Option, none, some,
  List, [], ◌∷◌, ◌++◌, ltb, leb, ◌==◌, if◌then◌else◌,
}
use os_exercises.Strings.{Mem}

-- while (-- width > 0)
unfoldable pub pads : ℕ → ℕ → List ℕ
pads zero padc = []
pads (suc n) padc = padc ∷ pads n padc

-- "0123456789abcdef"[d]
unfoldable pub digit_char : ℕ → ℕ
digit_char d = if ltb d 10 then 48 + d else 87 + d

unfoldable pub printnum : ℕ → ℕ → ℕ → ℕ → ℕ → Option (List ℕ)
printnum zero num base width padc = none
printnum (suc fuel) num base width padc = elim (leb base num) [
  | true ↦ elim (printnum fuel (num / base) base (width - 1) padc) [
    | none ↦ none
    | some cs ↦ some (cs ++ digit_char (num % base) ∷ [])
  ]
  | false ↦ some (pads (width - 1) padc ++ digit_char (num % base) ∷ [])
]

-- An `int` by %d: the word, which a sign extends to 64 bits.
unfoldable pub print_decimal : ℕ → ℕ → ℕ → ℕ → Option (List ℕ)
print_decimal fuel num width padc = elim (leb (2 ^ 31) num) [
  | true ↦ elim (printnum fuel (2 ^ 32 - num) 10 width padc) [
    | none ↦ none
    | some cs ↦ some (45 ∷ cs)
  ]
  | false ↦ printnum fuel num 10 width padc
]

unfoldable pub skip_blanks : ℕ → Mem → ℕ → Option ℕ
skip_blanks zero m s = none
skip_blanks (suc fuel) m s = elim ((m s == 32) || (m s == 9)) [
  | true ↦ skip_blanks fuel m (s + 1)
  | false ↦ some s
]

-- Where the number goes on, and whether it is negated.
unfoldable pub read_sign : Mem → ℕ → ℕ × Bool
read_sign m s =
    if m s == 43 then (s + 1, false) else (if m s == 45 then (s + 1, true) else (s, false))

-- Where the digits begin, and their base.
unfoldable pub read_prefix : Mem → ℕ → ℕ → ℕ × ℕ
read_prefix m s base =
    if ((base == 0) || (base == 16)) && ((m s == 48) && (m (s + 1) == 120))
    then (s + 2, 16)
    else (if (base == 0) && (m s == 48)
        then (s + 1, 8)
        else (if base == 0 then (s, 10) else (s, base)))

unfoldable pub digit_of : ℕ → Option ℕ
digit_of c =
    if leb 48 c && leb c 57
    then some (c - 48)
    else (if leb 97 c && leb c 122
        then some (c - 97 + 10)
        else (if leb 65 c && leb c 90 then some (c - 65 + 10) else none))

-- The value, and where the digits end.
unfoldable pub read_digits : ℕ → Mem → ℕ → ℕ → ℕ → Option (ℕ × ℕ)
read_digits zero m base s val = none
read_digits (suc fuel) m base s val = elim (digit_of (m s)) [
  | none ↦ some (val, s)
  | some dig ↦ elim (leb base dig) [
    | true ↦ some (val, s)
    | false ↦ read_digits fuel m base (s + 1) ((val * base + dig) % 2 ^ 32)
  ]
]

-- The result, and what `endptr` is set to.
unfoldable pub strtol : ℕ → Mem → ℕ → ℕ → Option (ℕ × ℕ)
strtol fuel m s base = elim (skip_blanks fuel m s) [
  | none ↦ none
  | some s ↦
      let (s, neg) = read_sign m s in
      let (s, base) = read_prefix m s base in
      elim (read_digits fuel m base s 0) [
        | none ↦ none
        | some (val, end) ↦ some (if neg then (2 ^ 32 - val) % 2 ^ 32 else val, end)
      ]
]
