-- ===== src/Strings/Memory.antt =====
-- What a string in memory is, and what a write changes.
use os_exercises.Base.{
  ◌∙◌, ap, ℕ, zero, suc, ◌+◌, ◌≡◌, ◌≢◌, ◌≤◌, ◌<◌, List, [], ◌∷◌, ◌++◌, arith, length, some,
}
use os_exercises.Strings.{Mem, write, strlen_loop, strlen}

-- The characters `cs` and a NUL after them stand at `s`.
abbrev pub Holds : Mem → ℕ → List ℕ → Type 0
Holds m s [] = m s ≡ 0
Holds m s (c ∷ cs) = (m s ≡ c) × (c ≢ 0) × Holds m (s + 1) cs

-- Two memories agree on the `n` bytes at `s`.
pub Same : Mem → Mem → ℕ → ℕ → Type 0
Same m m' s n = (i : ℕ) → i < n → m' (s + i) ≡ m (s + i)

pub write_self : (a v : ℕ) (m : Mem) → write a v m a ≡ v
unfolding write
write_self a v m = ground arith

pub write_other : (a v : ℕ) (m : Mem) (x : ℕ) → x ≢ a → write a v m x ≡ m x
unfolding write
write_other a v m x h = ground arith

pub strlen_loop-Holds :
    (fuel : ℕ) (m : Mem) (s cnt : ℕ) (cs : List ℕ)
    → Holds m s cs
    → length cs < fuel
    → strlen_loop fuel m s cnt ≡ some (cnt + length cs)
unfolding strlen_loop
strlen_loop-Holds zero m s cnt cs h lt = absurd (omega arith)
strlen_loop-Holds (suc fuel) m s cnt [] h lt = ground (arith, h)
strlen_loop-Holds (suc fuel) m s cnt (c ∷ cs) h lt =
    ground (arith, h.0, h.1, strlen_loop-Holds fuel m (s + 1) (cnt + 1) cs h.2)

pub strlen-Holds :
    (fuel : ℕ) (m : Mem) (s : ℕ) (cs : List ℕ)
    → Holds m s cs
    → length cs < fuel
    → strlen fuel m s ≡ some (length cs)
unfolding strlen
strlen-Holds fuel m s cs h lt = strlen_loop-Holds fuel m s 0 cs h lt ∙ ap some (omega arith)

-- A string stays where no byte of it changes.
pub Holds-Same :
    (m m' : Mem) (s : ℕ) (cs : List ℕ)
    → Holds m s cs
    → ((x : ℕ) → s ≤ x → x ≤ s + length cs → m' x ≡ m x)
    → Holds m' s cs
Holds-Same m m' s [] h same = same s (omega arith) (omega arith) ∙ h
Holds-Same m m' s (c ∷ cs) h same = (
  same s (omega arith) (omega arith) ∙ h.0,
  h.1,
  Holds-Same m m' (s + 1) cs h.2 (λ x le ge. same x (omega arith) (omega arith)),
)

-- A string whose NUL is overwritten by another string.
pub Holds-append :
    (m m' : Mem) (s : ℕ) (xs ys : List ℕ)
    → Holds m s xs
    → ((x : ℕ) → x < s + length xs → m' x ≡ m x)
    → Holds m' (s + length xs) ys
    → Holds m' s (xs ++ ys)
Holds-append m m' s [] ys h same tail = let here : s + 0 ≡ s = omega arith in rw here at tail
Holds-append m m' s (c ∷ xs) ys h same tail =
    let there : s + suc (length xs) ≡ s + 1 + length xs = omega arith in
    (
      same s (omega arith) ∙ h.0,
      h.1,
      Holds-append m m' (s + 1) xs ys h.2 (λ x lt. same x (omega arith)) (rw there at tail),
    )
