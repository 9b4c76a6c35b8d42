-- ===== src/Bitmap/Bits.antt =====
-- A bitmap as one sequence of bits.
use os_exercises.Base.{
  ℕ, zero, suc, ◌+◌, ◌-◌, ◌/◌, ◌%◌, ◌≤◌, ◌<◌, ◌≡◌, ◌⊎◌, inl, inr, refl, ap, Bool, true, false, not,
  none, some, List, [], ◌∷◌, ◌++◌, arith, ltb, ◌==◌, length, All, if◌then◌else◌, Bool-cases,
}
use os_exercises.Bitmap.{Word, toggle, set_bit, bit_at, word_at, nonzero, find_bit}

abbrev pub bits : List Word → List Bool
bits [] = []
bits (w ∷ ws) = w ++ bits ws

abbrev pub Full : Word → Type 0
Full w = length w ≡ 32

pub bit_at-append :
    (w v : List Bool) (i : ℕ)
    → bit_at (w ++ v) i ≡ (if ltb i (length w) then bit_at w i else bit_at v (i - length w))
bit_at-append [] v i = let same : i ≡ i - 0 = omega arith in ground (arith, same)
bit_at-append (b ∷ w) v zero = ground arith
bit_at-append (b ∷ w) v (suc i) = ground (arith, bit_at-append w v i)

-- The bit `i` is bit `i % 32` of word `i / 32`.
pub bit_at-word_at :
    (ws : List Word) (i : ℕ)
    → All Full ws
    → bit_at (word_at ws (i / 32)) (i % 32) ≡ bit_at (bits ws) i
bit_at-word_at [] i f = refl
bit_at-word_at (w ∷ ws) i f = elim (Bool-cases (ltb i 32)) [
  | inl e ↦
      let ix : i / 32 ≡ 0 = ground arith in
      let offset : i % 32 ≡ i = ground arith in
      rw (ix, offset, bit_at-append w (bits ws) i, f.0, e) refl
  | inr e ↦
      let ix : i / 32 ≡ suc ((i - 32) / 32) = ground arith in
      let offset : i % 32 ≡ (i - 32) % 32 = ground arith in
      rw (ix, offset, bit_at-append w (bits ws) i, f.0, e) (bit_at-word_at ws (i - 32) f.1)
]

pub toggle-length : (i : ℕ) (w : Word) → length (toggle i w) ≡ length w
unfolding toggle
toggle-length i [] = refl
toggle-length zero (b ∷ w) = refl
toggle-length (suc i) (b ∷ w) = ap suc (toggle-length i w)

pub set_bit-length : (i : ℕ) (w : Word) → length (set_bit i w) ≡ length w
unfolding set_bit
set_bit-length i [] = refl
set_bit-length zero (b ∷ w) = refl
set_bit-length (suc i) (b ∷ w) = ap suc (set_bit-length i w)

pub bit_at-toggle :
    (i j : ℕ) (w : Word)
    → i < length w
    → bit_at (toggle i w) j ≡ (if j == i then not (bit_at w j) else bit_at w j)
unfolding toggle
bit_at-toggle i j [] h = absurd (omega arith)
bit_at-toggle zero zero (b ∷ w) h = refl
bit_at-toggle zero (suc j) (b ∷ w) h = ground arith
bit_at-toggle (suc i) zero (b ∷ w) h = ground arith
bit_at-toggle (suc i) (suc j) (b ∷ w) h = ground (arith, bit_at-toggle i j w)

pub bit_at-set_bit :
    (i j : ℕ) (w : Word)
    → i < length w
    → bit_at (set_bit i w) j ≡ (if j == i then true else bit_at w j)
unfolding set_bit
bit_at-set_bit i j [] h = absurd (omega arith)
bit_at-set_bit zero zero (b ∷ w) h = refl
bit_at-set_bit zero (suc j) (b ∷ w) h = ground arith
bit_at-set_bit (suc i) zero (b ∷ w) h = ground arith
bit_at-set_bit (suc i) (suc j) (b ∷ w) h = ground (arith, bit_at-set_bit i j w)

-- Beyond its end a word has no bits.
pub bit_at-beyond : (w : List Bool) (i : ℕ) → length w ≤ i → bit_at w i ≡ false
bit_at-beyond [] i h = refl
bit_at-beyond (b ∷ w) zero h = absurd (omega arith)
bit_at-beyond (b ∷ w) (suc i) h = bit_at-beyond w i (omega arith)

below_next :
    (i : ℕ) (w : List Bool)
    → ((j : ℕ) → j < i → bit_at w j ≡ false)
    → (j : ℕ) → j < suc i
    → bit_at (false ∷ w) j ≡ false
below_next i w below zero h = refl
below_next i w below (suc j) h = below j (omega arith)

all_next : (w : List Bool) → ((j : ℕ) → bit_at w j ≡ false) → (j : ℕ) → bit_at (false ∷ w) j ≡ false
all_next w all zero = refl
all_next w all (suc j) = all j

-- What the search for a set bit finds.
pub find_bit-lowest :
    (k : ℕ) (w : List Bool)
    → ((i : ℕ) × (find_bit k w ≡ some (k + i))
        × (i < length w)
        × (bit_at w i ≡ true)
        × ((j : ℕ) → j < i → bit_at w j ≡ false))
      ⊎ ((find_bit k w ≡ none) × (nonzero w ≡ false) × ((j : ℕ) → bit_at w j ≡ false))
unfolding find_bit
find_bit-lowest k [] = inr (refl, refl, λ j. refl)
find_bit-lowest k (true ∷ w) =
    inl (zero, ap some (omega arith), omega arith, refl, λ j h. absurd (omega arith))
find_bit-lowest k (false ∷ w) = elim (find_bit-lowest (k + 1) w) [
  | inl (i, run, lt, set, below) ↦
      let at : k + 1 + i ≡ k + suc i = omega arith in
      inl (suc i, rw at at run, omega arith, set, below_next i w below)
  | inr (run, zero_word, all) ↦ inr (run, zero_word, all_next w all)
]
