-- ===== src/Strings/Overlap.antt =====
-- What the copies of libs/string.c and libs/x86.h leave in memory when their areas overlap.
use os_exercises.Base.{
  ℕ, zero, suc, ◌+◌, ◌-◌, ◌*◌, ◌/◌, ◌%◌, ◌≤◌, ◌<◌, ◌≡◌, ◌⊎◌, inl, inr, sym, ap, ◌∙◌, ◌&&◌, arith,
  ltb, leb, ◌==◌, if◌then◌else◌, Bool-cases,
}
use os_exercises.Strings.{
  Mem, write, copy_up, copy_down, memmove, move_word, words_up, x86_memcpy, x86_memmove,
}
use os_exercises.Strings.Memory.{write_self, write_other}

-- All `n` bytes read before any is written.
abbrev pub copied : ℕ → ℕ → ℕ → Mem → Mem
copied d s n m x = if leb d x && ltb x (d + n) then m (s + (x - d)) else m x

pub copied-inside :
    (d s n : ℕ) (m : Mem) (x : ℕ) → d ≤ x → x < d + n → copied d s n m x ≡ m (s + (x - d))
copied-inside d s n m x le lt = ground arith

pub copied-outside : (d s n : ℕ) (m : Mem) (x : ℕ) → (x < d) ⊎ (d + n ≤ x) → copied d s n m x ≡ m x
copied-outside d s n m x h = ground arith

abbrev pub Upward : ℕ → ℕ → ℕ → Type 0
Upward d s n = (d ≤ s) ⊎ (s + n ≤ d)

-- Copying a first part and then the rest.
pub copied-parts :
    (d s a n : ℕ) (m m' : Mem)
    → Upward d s (a + n)
    → ((x : ℕ) → m' x ≡ copied d s a m x)
    → (x : ℕ) → copied (d + a) (s + a) n m' x ≡ copied d s (a + n) m x
copied-parts d s a n m m' up first x = elim (Bool-cases (ltb x (d + a))) [
  | inl near ↦ copied-outside (d + a) (s + a) n m' x (ground arith) ∙ first x ∙ ground arith
  | inr far ↦ elim (Bool-cases (ltb x (d + a + n))) [
    | inl e ↦
        let source : s + a + (x - (d + a)) ≡ s + (x - d) = ground arith in
        copied-inside (d + a) (s + a) n m' x (ground arith) (ground arith)
        ∙ ap m' source
        ∙ first (s + (x - d))
        ∙ copied-outside d s a m (s + (x - d)) (ground arith)
        ∙ sym (copied-inside d s (a + n) m x (ground arith) (ground arith))
    | inr e ↦
        copied-outside (d + a) (s + a) n m' x (ground arith)
        ∙ first x
        ∙ copied-outside d s a m x (ground arith)
        ∙ sym (copied-outside d s (a + n) m x (ground arith))
  ]
]

pub write-copied : (d s : ℕ) (m : Mem) (x : ℕ) → write d (m s) m x ≡ copied d s 1 m x
unfolding write
write-copied d s m x = elim (Bool-cases (x == d)) [
  | inl e ↦ let same : s + (x - d) ≡ s = ground arith in rw (same) ground arith
  | inr e ↦ ground arith
]

pub copy_up-copied :
    (d s n : ℕ) (m : Mem) → Upward d s n → (x : ℕ) → copy_up d s n m x ≡ copied d s n m x
unfolding copy_up
copy_up-copied d s zero m up x = ground arith
copy_up-copied d s (suc n) m up x =
    let count : suc n ≡ 1 + n = omega arith in
    rw (count) (
      copy_up-copied (d + 1) (s + 1) n (write d (m s) m) (ground arith) x
      ∙ copied-parts d s 1 n m (write d (m s) m) (ground arith) (write-copied d s m) x)

-- The last byte first, then the others.
down_step :
    (d s n : ℕ) (m : Mem)
    → (s ≤ d) ⊎ (d + suc n ≤ s)
    → (x : ℕ) → copied d s n (write (d + n) (m (s + n)) m) x ≡ copied d s (suc n) m x
down_step d s n m down x = elim (Bool-cases (ltb x d)) [
  | inl e ↦
      copied-outside d s n (write (d + n) (m (s + n)) m) x (ground arith)
      ∙ write_other (d + n) (m (s + n)) m x (ground arith)
      ∙ sym (copied-outside d s (suc n) m x (ground arith))
  | inr low ↦ elim (Bool-cases (ltb x (d + n))) [
    | inl e ↦
        copied-inside d s n (write (d + n) (m (s + n)) m) x (ground arith) (ground arith)
        ∙ write_other (d + n) (m (s + n)) m (s + (x - d)) (ground arith)
        ∙ sym (copied-inside d s (suc n) m x (ground arith) (ground arith))
    | inr far ↦ elim (Bool-cases (x == d + n)) [
      | inl e ↦
          let last : x - d ≡ n = ground arith in
          let place : x ≡ d + n = ground arith in
          copied-outside d s n (write (d + n) (m (s + n)) m) x (ground arith)
          ∙ ap (write (d + n) (m (s + n)) m) place
          ∙ write_self (d + n) (m (s + n)) m
          ∙ ap (λ i. m (s + i)) (sym last)
          ∙ sym (copied-inside d s (suc n) m x (ground arith) (ground arith))
      | inr e ↦
          copied-outside d s n (write (d + n) (m (s + n)) m) x (ground arith)
          ∙ write_other (d + n) (m (s + n)) m x (ground arith)
          ∙ sym (copied-outside d s (suc n) m x (ground arith))
    ]
  ]
]

pub copy_down-copied :
    (d s n : ℕ) (m : Mem)
    → (s ≤ d) ⊎ (d + n ≤ s)
    → (x : ℕ) → copy_down (d + n) (s + n) n m x ≡ copied d s n m x
unfolding copy_down
copy_down-copied d s zero m down x = ground arith
copy_down-copied d s (suc n) m down x =
    let target : d + suc n - 1 ≡ d + n = omega arith in
    let source : s + suc n - 1 ≡ s + n = omega arith in
    rw (target, source)
      (copy_down-copied d s n (write (d + n) (m (s + n)) m) (ground arith) x
        ∙ down_step d s n m down x)

move_word-copied : (d s : ℕ) (m : Mem) (x : ℕ) → move_word d s m x ≡ copied d s 4 m x
unfolding move_word write
move_word-copied d s m x =
    let byte : (i : ℕ) → x ≡ d + i → m (s + (x - d)) ≡ m (s + i) = λ i e. ap m (omega arith) in
    let first : m (s + 0) ≡ m s = ap m (omega arith) in
    ground (arith, byte 0, byte 1, byte 2, byte 3, first)

pub words_up-copied :
    (d s n : ℕ) (m : Mem)
    → Upward d s (4 * n)
    → (x : ℕ) → words_up d s n m x ≡ copied d s (4 * n) m x
unfolding words_up
words_up-copied d s zero m up x = ground arith
words_up-copied d s (suc n) m up x =
    let count : 4 * suc n ≡ 4 + 4 * n = omega arith in
    rw (count) (
      words_up-copied (d + 4) (s + 4) n (move_word d s m) (ground arith) x
      ∙ copied-parts d s 4 (4 * n) m (move_word d s m) (ground arith) (move_word-copied d s m) x)

-- `memmove` reads every byte before it is overwritten, in all ways in which the areas may overlap.
pub memmove-copied :
    (dst src n : ℕ) (m : Mem) (x : ℕ) → memmove dst src n m x ≡ copied dst src n m x
unfolding memmove
memmove-copied dst src n m x = elim (Bool-cases (ltb src dst && ltb dst (src + n))) [
  | inl e ↦ rw (e) (copy_down-copied dst src n m (ground arith) x)
  | inr e ↦ rw (e) (copy_up-copied dst src n m (ground arith) x)
]

pub x86_memcpy-copied :
    (dst src n : ℕ) (m : Mem)
    → Upward dst src n
    → (x : ℕ) → x86_memcpy dst src n m x ≡ copied dst src n m x
unfolding x86_memcpy
x86_memcpy-copied dst src n m up x =
    let count : 4 * (n / 4) + n % 4 ≡ n = omega arith in
    copy_up-copied (dst + 4 * (n / 4)) (src + 4 * (n / 4)) (n % 4) (words_up dst src (n / 4) m)
      (ground (arith, count)) x
    ∙ copied-parts dst src (4 * (n / 4)) (n % 4) m (words_up dst src (n / 4) m) (rw count up)
        (words_up-copied dst src (n / 4) m (ground (arith, count))) x
    ∙ ap (λ k. copied dst src k m x) count

-- The x86 form, which moves words where it goes up, leaves the memory that `memmove` leaves.
pub x86_memmove-memmove :
    (dst src n : ℕ) (m : Mem) (x : ℕ) → x86_memmove dst src n m x ≡ memmove dst src n m x
unfolding x86_memmove
x86_memmove-memmove dst src n m x = elim (Bool-cases (ltb dst src)) [
  | inl e ↦
      rw (e) (x86_memcpy-copied dst src n m (ground arith) x ∙ sym (memmove-copied dst src n m x))
  | inr e ↦
      rw (e) (copy_down-copied dst src n m (ground arith) x ∙ sym (memmove-copied dst src n m x))
]
