-- ===== src/Numbers/RoundTrip.antt =====
-- strtol reads what %d prints.
use os_exercises.Base.{
  ℕ, zero, suc, ◌+◌, ◌-◌, ◌%◌, ◌^◌, ◌≤◌, ◌<◌, ◌≡◌, ◌⊎◌, inl, inr, refl, ap, ◌∙◌, Bool, true, false,
  ◌||◌, some, List, [], ◌∷◌, ◌++◌, arith, leb, ◌==◌, length, All, if◌then◌else◌, Bool-cases,
}
use os_exercises.Strings.{Mem}
use os_exercises.Strings.Memory.{Holds}
use os_exercises.Numbers.{
  pads, printnum, print_decimal, skip_blanks, read_sign, read_prefix, read_digits, strtol,
}
use os_exercises.Numbers.Digits.{IsDecimal, value, printnum-value, read_digits-value}

no_pads : (k padc : ℕ) (cs : List ℕ) → k ≡ 0 → some (pads k padc ++ cs) ≡ some cs
unfolding pads
no_pads k padc cs e = rw (e) refl

-- The digits of a number below 10^10 without padding.
digits :
    (num padc : ℕ)
    → num < 10 ^ 10
    → (cs : List ℕ) × (printnum 10 num 10 0 padc ≡ some cs)
      × All IsDecimal cs
      × (value 0 cs ≡ num)
      × (0 < length cs)
digits num padc h =
    let (cs, run, all, val, some_digit) = printnum-value 10 num 0 padc (omega arith) h in
    (cs, run ∙ no_pads (0 - length cs) padc cs (omega arith), all, val, some_digit)

-- No blank stands at `s`.
skip_blanks-none :
    (fuel : ℕ) (m : Mem) (s : ℕ) → 0 < fuel → 32 < m s → skip_blanks fuel m s ≡ some s
unfolding skip_blanks
skip_blanks-none zero m s pos h = absurd (omega arith)
skip_blanks-none (suc fuel) m s pos h =
    let test : ((m s == 32) || (m s == 9)) ≡ false = ground arith in rw (skip_blanks, test) refl

read_sign-digit : (m : Mem) (s : ℕ) → 48 ≤ m s → read_sign m s ≡ (s, false)
unfolding read_sign
read_sign-digit m s h = ground arith

read_sign-minus : (m : Mem) (s : ℕ) → m s ≡ 45 → read_sign m s ≡ (s + 1, true)
unfolding read_sign
read_sign-minus m s h = ground arith

strtol-run :
    (fuel : ℕ) (m : Mem) (s s' val end : ℕ) (neg : Bool)
    → skip_blanks fuel m s ≡ some s
    → read_sign m s ≡ (s', neg)
    → read_digits fuel m 10 s' 0 ≡ some (val, end)
    → strtol fuel m s 10 ≡ some (if neg then (2 ^ 32 - val) % 2 ^ 32 else val, end)
unfolding strtol read_prefix
strtol-run fuel m s s' val end neg skip sg run =
    let place : (read_sign m s).0 ≡ s' = ap (λ p. p.0) sg in
    let sign : (read_sign m s).1 ≡ neg = ap (λ p. p.1) sg in
    rw (strtol, skip, place, run, sign) refl

first_digit :
    (m : Mem) (s : ℕ) (cs : List ℕ) → Holds m s cs → All IsDecimal cs → 0 < length cs → 48 ≤ m s
first_digit m s [] h all pos = absurd (omega arith)
first_digit m s (c ∷ cs) h all pos = omega (arith, h.0, all.0.0)

-- Of a negative word '-' and then the digits of its negation are printed, of another its digits.
pub print_decimal-cases :
    (num padc : ℕ)
    → num < 2 ^ 32
    → (cs : List ℕ) × All IsDecimal cs
      × (0 < length cs)
      × (((num < 2 ^ 31) × (print_decimal 10 num 0 padc ≡ some cs) × (value 0 cs ≡ num))
          ⊎ ((2 ^ 31 ≤ num)
              × (print_decimal 10 num 0 padc ≡ some (45 ∷ cs))
              × (value 0 cs ≡ 2 ^ 32 - num)))
unfolding print_decimal
print_decimal-cases num padc h = elim (Bool-cases (leb (2 ^ 31) num)) [
  | inl e ↦
      let (cs, run, all, val, pos) = digits (2 ^ 32 - num) padc (omega arith) in
      (cs, all, pos, inr (ground arith, rw (print_decimal, e, run) refl, val))
  | inr e ↦
      let (cs, run, all, val, pos) = digits num padc (omega arith) in
      (cs, all, pos, inl (ground arith, rw (print_decimal, e) run, val))
]

unsigned :
    (fuel : ℕ) (m : Mem) (s num : ℕ) (ds : List ℕ)
    → num < 2 ^ 31
    → All IsDecimal ds
    → 0 < length ds
    → value 0 ds ≡ num
    → Holds m s ds
    → length ds < fuel
    → strtol fuel m s 10 ≡ some (num, s + length ds)
unsigned fuel m s num ds low all pos val h lt =
    let digit = first_digit m s ds h all pos in
    strtol-run fuel m s s (value 0 ds) (s + length ds) false
      (skip_blanks-none fuel m s (omega arith) (omega arith)) (read_sign-digit m s digit)
      (read_digits-value fuel m s 0 ds h all (omega arith) lt)
    ∙ ap (λ v. some (v, s + length ds)) val

signed :
    (fuel : ℕ) (m : Mem) (s num : ℕ) (ds : List ℕ)
    → 2 ^ 31 ≤ num
    → num < 2 ^ 32
    → All IsDecimal ds
    → 0 < length ds
    → value 0 ds ≡ 2 ^ 32 - num
    → Holds m s (45 ∷ ds)
    → length (45 ∷ ds) < fuel
    → strtol fuel m s 10 ≡ some (num, s + length (45 ∷ ds))
signed fuel m s num ds high small all pos val h lt =
    let back : (2 ^ 32 - value 0 ds) % 2 ^ 32 ≡ num = omega arith in
    let end : s + 1 + length ds ≡ s + suc (length ds) = omega arith in
    strtol-run fuel m s (s + 1) (value 0 ds) (s + 1 + length ds) true
      (skip_blanks-none fuel m s (omega arith) (omega (arith, h.0))) (read_sign-minus m s h.0)
      (read_digits-value fuel m (s + 1) 0 ds h.2 all (omega arith) (omega arith))
    ∙ ap (λ v. some (v, s + 1 + length ds)) back
    ∙ ap (λ e. some (num, e)) end

read_back :
    (fuel : ℕ) (m : Mem) (s num : ℕ) (ds cs : List ℕ)
    → (Holds m s ds → length ds < fuel → strtol fuel m s 10 ≡ some (num, s + length ds))
    → ds ≡ cs
    → Holds m s cs
    → length cs < fuel
    → strtol fuel m s 10 ≡ some (num, s + length cs)
read_back fuel m s num ds cs = λ read same. rw (← same) read

-- Where a string holds what %d prints of an `int`, strtol in base 10 returns the number and the end
-- of the string, with fuel for the string.
pub strtol-print_decimal :
    (fuel : ℕ) (m : Mem) (s num padc : ℕ) (cs : List ℕ)
    → num < 2 ^ 32
    → print_decimal 10 num 0 padc ≡ some cs
    → Holds m s cs
    → length cs < fuel
    → strtol fuel m s 10 ≡ some (num, s + length cs)
strtol-print_decimal fuel m s num padc cs small run h lt =
    let (ds, all, pos, shown) = print_decimal-cases num padc small in
    elim shown [
      | inl (low, shows, val) ↦
          read_back fuel m s num ds cs (unsigned fuel m s num ds low all pos val) (cc (shows, run))
            h lt
      | inr (high, shows, val) ↦
          read_back fuel m s num (45 ∷ ds) cs (signed fuel m s num ds high small all pos val)
            (cc (shows, run)) h lt
    ]
