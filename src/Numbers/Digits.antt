-- ===== src/Numbers/Digits.antt =====
-- The digits that printnum prints, and the value that strtol reads of them.
use os_exercises.Base.{
  ℕ, zero, suc, ◌+◌, ◌-◌, ◌*◌, ◌/◌, ◌%◌, ◌^◌, ◌≤◌, ◌<◌, ◌≡◌, inl, inr, refl, ap, ◌∙◌, true, false,
  none, some, List, [], ◌∷◌, ◌++◌, arith, leb, length, length-append, All, Bool-cases,
}
use os_exercises.Strings.{Mem}
use os_exercises.Strings.Memory.{Holds}
use os_exercises.Numbers.{pads, digit_char, printnum, digit_of, read_digits}

-- '0' to '9'
abbrev pub IsDecimal : ℕ → Type 0
IsDecimal c = (48 ≤ c) × (c < 58)

-- The number that the digits denote, after those of `v`.
abbrev pub value : ℕ → List ℕ → ℕ
value v [] = v
value v (c ∷ cs) = value (v * 10 + (c - 48)) cs

pub value-append :
    (v : ℕ) (xs : List ℕ) (c : ℕ) → value v (xs ++ c ∷ []) ≡ value v xs * 10 + (c - 48)
value-append v [] c = refl
value-append v (x ∷ xs) c = value-append (v * 10 + (x - 48)) xs c

pub All-append :
    (xs : List ℕ) (c : ℕ) → All IsDecimal xs → IsDecimal c → All IsDecimal (xs ++ c ∷ [])
All-append [] c a h = (h, tt)
All-append (x ∷ xs) c a h = (a.0, All-append xs c a.1 h)

pub value-grows : (v : ℕ) (cs : List ℕ) → v ≤ value v cs
value-grows v [] = omega arith
value-grows v (c ∷ cs) = omega (arith, value-grows (v * 10 + (c - 48)) cs)

append_assoc : (xs ys zs : List ℕ) → (xs ++ ys) ++ zs ≡ xs ++ (ys ++ zs)
append_assoc [] ys zs = refl
append_assoc (x ∷ xs) ys zs = ap (λ l. x ∷ l) (append_assoc xs ys zs)

digit_char-decimal : (d : ℕ) → d < 10 → digit_char d ≡ 48 + d
unfolding digit_char
digit_char-decimal d h = ground arith

power : (k : ℕ) → 10 ^ suc k ≡ 10 * 10 ^ k
power k = omega arith

enough_fuel : (fuel num : ℕ) → 10 ≤ num → num < 10 ^ suc fuel → 0 < fuel
enough_fuel zero num le lt = absurd (omega arith)
enough_fuel (suc fuel) num le lt = omega arith

printnum-more :
    (fuel num base width padc : ℕ) (cs : List ℕ)
    → leb base num ≡ true
    → printnum fuel (num / base) base (width - 1) padc ≡ some cs
    → printnum (suc fuel) num base width padc ≡ some (cs ++ digit_char (num % base) ∷ [])
unfolding printnum
printnum-more fuel num base width padc cs e run = rw (printnum, e, run) refl

printnum-last :
    (fuel num base width padc : ℕ)
    → leb base num ≡ false
    → printnum (suc fuel) num base width padc
      ≡ some (pads (width - 1) padc ++ digit_char (num % base) ∷ [])
unfolding printnum
printnum-last fuel num base width padc e = rw (printnum, e) refl

-- printnum in base 10 ends with fuel for the digits; it prints the digits of the number, and before
-- them what the width asks for.
pub printnum-value :
    (fuel num width padc : ℕ)
    → 0 < fuel
    → num < 10 ^ fuel
    → (cs : List ℕ) × (printnum fuel num 10 width padc ≡ some (pads (width - length cs) padc ++ cs))
      × All IsDecimal cs
      × (value 0 cs ≡ num)
      × (0 < length cs)
printnum-value zero num width padc pos h = absurd (omega arith)
printnum-value (suc fuel) num width padc pos h =
    let d = digit_char (num % 10) in
    let char : d ≡ 48 + num % 10 = digit_char-decimal (num % 10) (omega arith) in
    elim (Bool-cases (leb 10 num)) [
      | inl e ↦
          let (cs, run, all, val, some_digit) =
            printnum-value fuel (num / 10) (width - 1) padc (enough_fuel fuel num (ground arith) h)
              (omega (arith, power fuel)) in
          let width_left : width - 1 - length cs ≡ width - length (cs ++ d ∷ []) =
            omega (arith, length-append cs (d ∷ [])) in
          (
            cs ++ d ∷ [],
            printnum-more fuel num 10 width padc (pads (width - 1 - length cs) padc ++ cs) e run
                ∙ ap some (append_assoc (pads (width - 1 - length cs) padc) cs (d ∷ []))
                ∙ ap (λ k. some (pads k padc ++ (cs ++ d ∷ []))) width_left,
            All-append cs d all (omega arith, omega arith),
            value-append 0 cs d ∙ omega arith,
            omega (arith, length-append cs (d ∷ [])),
          )
      | inr e ↦ (
        d ∷ [],
        printnum-last fuel num 10 width padc e,
        ((omega arith, omega arith), tt),
        (ground arith),
        omega arith,
      )
    ]

digit_of-decimal : (c : ℕ) → IsDecimal c → digit_of c ≡ some (c - 48)
unfolding digit_of
digit_of-decimal c h = ground (arith, h.0, h.1)

read_digits-more :
    (fuel : ℕ) (m : Mem) (base s v d : ℕ)
    → digit_of (m s) ≡ some d
    → d < base
    → v * base + d < 2 ^ 32
    → read_digits (suc fuel) m base s v ≡ read_digits fuel m base (s + 1) (v * base + d)
unfolding read_digits
read_digits-more fuel m base s v d e h small =
    let go : leb base d ≡ false = ground arith in
    let fits : (v * base + d) % 2 ^ 32 ≡ v * base + d = omega arith in
    rw (read_digits, e, go, fits) refl

read_digits-end :
    (fuel : ℕ) (m : Mem) (base s v : ℕ)
    → digit_of (m s) ≡ none
    → read_digits (suc fuel) m base s v ≡ some (v, s)
unfolding read_digits
read_digits-end fuel m base s v e = rw (read_digits, e) refl

nul : (c : ℕ) → c ≡ 0 → digit_of c ≡ none
unfolding digit_of
nul c e = rw (e) refl

-- The digits of a number below 2^32 are read to their end.
pub read_digits-value :
    (fuel : ℕ) (m : Mem) (s v : ℕ) (cs : List ℕ)
    → Holds m s cs
    → All IsDecimal cs
    → value v cs < 2 ^ 32
    → length cs < fuel
    → read_digits fuel m 10 s v ≡ some (value v cs, s + length cs)
read_digits-value zero m s v cs h all small lt = absurd (omega arith)
read_digits-value (suc fuel) m s v [] h all small lt =
    read_digits-end fuel m 10 s v (nul (m s) h) ∙ ap (λ e. some (v, e)) (omega arith)
read_digits-value (suc fuel) m s v (c ∷ cs) h all small lt =
    let here : digit_of (m s) ≡ some (c - 48) = ap digit_of h.0 ∙ digit_of-decimal c all.0 in
    read_digits-more fuel m 10 s v (c - 48) here (omega (arith, all.0.1))
      (omega (arith, value-grows (v * 10 + (c - 48)) cs))
    ∙ read_digits-value fuel m (s + 1) (v * 10 + (c - 48)) cs h.2 all.1 small (omega arith)
    ∙ ap (λ e. some (value (v * 10 + (c - 48)) cs, e)) (omega arith)
