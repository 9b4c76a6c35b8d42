-- ===== src/Bitmap/Create.antt =====
-- `bitmap_create`.
use os_exercises.Base.{
  ℕ, zero, suc, ◌+◌, ◌-◌, ◌*◌, ◌/◌, ◌%◌, ◌^◌, ◌≤◌, ◌<◌, ◌≡◌, inl, inr, refl, sym, ap, true, false,
  not, some, [], arith, ltb, leb, ◌==◌, ◌&&◌, length, All, if◌then◌else◌, Bool-cases, done,
}
use os_exercises.Bitmap.{
  Word, Bitmap, toggle, bit_at, change_word, repeat_word, clear_from, clear_spare, bitmap_create,
}
use os_exercises.Bitmap.Bits.{bits, Full, bit_at-append, toggle-length, bit_at-toggle}
use os_exercises.Bitmap.Alloc.{IsValid}

abbrev ones : Word
ones = repeat_word 32 true

length-clear_from : (n o : ℕ) (w : Word) → length (clear_from n o w) ≡ length w
unfolding clear_from
length-clear_from zero o w = refl
length-clear_from (suc n) o w =
    omega (arith, length-clear_from n (o + 1) (toggle o w), toggle-length o w)

bit_at-clear_from :
    (n o j : ℕ) (w : Word)
    → o + n ≤ length w
    → bit_at (clear_from n o w) j
      ≡ (if leb o j && ltb j (o + n) then not (bit_at w j) else bit_at w j)
unfolding clear_from
bit_at-clear_from zero o j w h = ground arith
bit_at-clear_from (suc n) o j w h = ground (
  arith,
  bit_at-clear_from n (o + 1) j (toggle o w) (omega (arith, toggle-length o w)),
  bit_at-toggle o j w (omega arith),
)

bit_at-repeat_word : (n j : ℕ) → bit_at (repeat_word n true) j ≡ ltb j n
bit_at-repeat_word zero j = ground arith
bit_at-repeat_word (suc n) zero = ground arith
bit_at-repeat_word (suc n) (suc j) = ground (arith, bit_at-repeat_word n j)

length-repeat_word {ℓ} : {A : Type ℓ} (n : ℕ) (a : A) → length (repeat_word n a) ≡ n
length-repeat_word zero a = refl
length-repeat_word (suc n) a = ap suc (length-repeat_word n a)

All-repeat_word : (n : ℕ) → All Full (repeat_word n ones)
All-repeat_word zero = tt
All-repeat_word (suc n) = (refl, All-repeat_word n)

bits-repeat_word : (n j : ℕ) → bit_at (bits (repeat_word n ones)) j ≡ ltb j (n * 32)
bits-repeat_word zero j = ground arith
bits-repeat_word (suc n) j =
    rw (bit_at-append ones (bits (repeat_word n ones)) j, bit_at-repeat_word 32 j)
      (ground (arith, bits-repeat_word n (j - 32)))

module _ (o : ℕ) (le : o ≤ 32) where
  abbrev cut : Word → Word
  cut = clear_from (32 - o) o

  bit_at-cut : (j : ℕ) → bit_at (cut ones) j ≡ ltb j o
  bit_at-cut j =
      ground (arith, bit_at-clear_from (32 - o) o j ones (omega arith), bit_at-repeat_word 32 j)

  All-cut : (ix : ℕ) → All Full (change_word cut ix (repeat_word (suc ix) ones))
  unfolding change_word
  All-cut zero = (length-clear_from (32 - o) o ones, tt)
  All-cut (suc ix) = (refl, All-cut ix)

  length-cut : (ix : ℕ) → length (change_word cut ix (repeat_word (suc ix) ones)) ≡ suc ix
  unfolding change_word
  length-cut zero = refl
  length-cut (suc ix) = ap suc (length-cut ix)

  bits-cut :
      (ix j : ℕ)
      → bit_at (bits (change_word cut ix (repeat_word (suc ix) ones))) j ≡ ltb j (ix * 32 + o)
  unfolding change_word
  bits-cut zero j =
      rw (bit_at-append (cut ones) [] j, bit_at-cut j)
        (ground (arith, length-clear_from (32 - o) o ones))
  bits-cut (suc ix) j =
      rw
        (
          bit_at-append ones (bits (change_word cut ix (repeat_word (suc ix) ones))) j,
          bit_at-repeat_word 32 j,
        )
        (ground (arith, bits-cut ix (j - 32)))

-- A new bitmap of a size that is not 0 and does not make the rounding overflow has that many free
-- blocks, the ones below its size, and is well formed, given memory.
pub bitmap_create-free :
    (nbits : ℕ)
    → 0 < nbits
    → nbits + 32 < 2 ^ 32
    → (b : Bitmap) × (bitmap_create nbits true ≡ done (some b))
      × (b.nbits ≡ nbits)
      × IsValid b
      × ((j : ℕ) → bit_at (bits b.map) j ≡ ltb j nbits)
unfolding bitmap_create clear_spare
bitmap_create-free nbits pos small =
    let nwords = (nbits + 31) / 32 in
    let ix = nwords - 1 in
    let o = nbits - ix * 32 in
    let fits : (not (nbits == 0) && ltb nbits ((nbits + 32) % 2 ^ 32)) ≡ true = ground arith in
    elim (Bool-cases (nbits == nwords * 32)) [
      | inl e ↦
          let size = length-repeat_word nwords ones in
          let all = bits-repeat_word nwords in
          (
            record { nbits = nbits; nwords = nwords; map = repeat_word nwords ones },
            rw (fits, e) refl,
            refl,
            record {
              full = All-repeat_word nwords;
              room = ground (arith, size);
              spare = λ j h. ground (arith, all j);
            },
            λ j. ground (arith, all j),
          )
      | inr e ↦
          let le : o ≤ 32 = omega arith in
          let again : suc ix ≡ nwords = omega arith in
          let last : (nbits / 32 == ix) ≡ true = ground arith in
          let inside : (ltb 0 o && ltb o 32) ≡ true = ground arith in
          let map = change_word (cut o le) ix (repeat_word (suc ix) ones) in
          (
            record { nbits = nbits; nwords = nwords; map = map },
            run fits e last inside again,
            refl,
            record {
              full = All-cut o le ix;
              room = omega (arith, length-cut o le ix);
              spare = λ j h. ground (arith, bits-cut o le ix j);
            },
            λ j. ground (arith, bits-cut o le ix j),
          )
    ]
  where
    run :
        (not (nbits == 0) && ltb nbits ((nbits + 32) % 2 ^ 32)) ≡ true
        → (nbits == (nbits + 31) / 32 * 32) ≡ false
        → (nbits / 32 == (nbits + 31) / 32 - 1) ≡ true
        → (ltb 0 (nbits - ((nbits + 31) / 32 - 1) * 32)
            && ltb (nbits - ((nbits + 31) / 32 - 1) * 32) 32)
          ≡ true
        → suc ((nbits + 31) / 32 - 1) ≡ (nbits + 31) / 32
        → bitmap_create nbits true
          ≡ done (
              some (record {
                nbits = nbits;
                nwords = (nbits + 31) / 32;
                map =
                    change_word
                      (clear_from
                        (32 - (nbits - ((nbits + 31) / 32 - 1) * 32))
                        (nbits - ((nbits + 31) / 32 - 1) * 32))
                      ((nbits + 31) / 32 - 1)
                      (repeat_word (suc ((nbits + 31) / 32 - 1)) ones);
              }))
    run fits e last inside again =
        rw (fits, e, last, inside)
          (ap
            (λ n. done (
              some (record {
                nbits = nbits;
                nwords = (nbits + 31) / 32;
                map =
                    change_word
                      (clear_from (32 - (nbits - ((nbits + 31) / 32 - 1) * 32))
                        (nbits - ((nbits + 31) / 32 - 1) * 32))
                      ((nbits + 31) / 32 - 1) (repeat_word n ones);
              })))
            (sym again))
