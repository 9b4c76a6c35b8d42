-- ===== src/Strings/Copy.antt =====
-- What `strcpy`, `strcat`, `strncpy`, `memset` and the searches of libs/string.c do to strings.
use os_exercises.Base.{
  ℕ, zero, suc, ◌+◌, ◌≤◌, ◌<◌, ◌≡◌, ◌⊎◌, inl, inr, refl, ap, ◌∙◌, ◌&&◌, none, some, List, [], ◌∷◌,
  ◌++◌, arith, ltb, leb, ◌==◌, length, if◌then◌else◌, Bool-cases,
}
use os_exercises.Strings.{Mem, write, strlen, strcpy, strcat, strncpy, memset, strchr, strfind}
use os_exercises.Strings.Memory.{
  Holds, write_self, write_other, strlen-Holds, Holds-Same, Holds-append,
}

-- The areas of `n + 1` bytes at `a` and of `k + 1` bytes at `b` have no byte in common.
abbrev pub Apart : ℕ → ℕ → ℕ → ℕ → Type 0
Apart a n b k = (a + n < b) ⊎ (b + k < a)

-- Bytes outside the area of `n + 1` bytes at `a` are as before.
abbrev pub Kept : ℕ → ℕ → Mem → Mem → Type 0
Kept a n m m' = (x : ℕ) → (x < a) ⊎ (a + n < x) → m' x ≡ m x

-- With fuel for the string, `strcpy` ends, puts the string at `dst` and changes nothing else.
pub strcpy-Holds :
    (fuel dst src : ℕ) (m : Mem) (cs : List ℕ)
    → Holds m src cs
    → Apart dst (length cs) src (length cs)
    → length cs < fuel
    → (m' : Mem) × (strcpy fuel dst src m ≡ some m') × Holds m' dst cs × Kept dst (length cs) m m'
unfolding strcpy
strcpy-Holds zero dst src m cs h apart lt = absurd (omega arith)
strcpy-Holds (suc fuel) dst src m [] h apart lt = (
  write dst (m src) m,
  ground (arith, h),
  write_self dst (m src) m ∙ h,
  λ x out. write_other dst (m src) m x (ground arith),
)
strcpy-Holds (suc fuel) dst src m (c ∷ cs) h apart lt =
    let tail =
      Holds-Same m (write dst (m src) m) (src + 1) cs h.2
        (λ x le ge. write_other dst (m src) m x (ground arith)) in
    let (m', run, holds, kept) =
      strcpy-Holds fuel (dst + 1) (src + 1) (write dst (m src) m) cs tail (ground arith)
        (omega arith) in
    (
      m',
      ground (arith, h.0, h.1, run),
      (kept dst (omega arith) ∙ write_self dst (m src) m ∙ h.0, h.1, holds),
      λ x out. kept x (ground arith) ∙ write_other dst (m src) m x (ground arith),
    )

strcat-run :
    (fuel dst src : ℕ) (m : Mem) (n : ℕ) (m' : Mem)
    → strlen fuel m dst ≡ some n
    → strcpy fuel (dst + n) src m ≡ some m'
    → strcat fuel dst src m ≡ some m'
unfolding strcat
strcat-run fuel dst src m n m' e h = rw (strcat, e) h

-- With fuel for both strings and room for the result, `strcat` ends, leaves the two strings one after
-- the other at `dst` and changes nothing outside the room.
pub strcat-Holds :
    (fuel dst src : ℕ) (m : Mem) (xs ys : List ℕ)
    → Holds m dst xs
    → Holds m src ys
    → Apart dst (length xs + length ys) src (length ys)
    → length xs < fuel
    → length ys < fuel
    → (m' : Mem) × (strcat fuel dst src m ≡ some m')
      × Holds m' dst (xs ++ ys)
      × Kept dst (length xs + length ys) m m'
strcat-Holds fuel dst src m xs ys hx hy apart lx ly =
    let (m', run, holds, kept) =
      strcpy-Holds fuel (dst + length xs) src m ys hy (ground arith) ly in
    (
      m',
      strcat-run fuel dst src m (length xs) m' (strlen-Holds fuel m dst xs hx lx) run,
      Holds-append m m' dst xs ys hx (λ x lt. kept x (omega arith)) holds,
      λ x out. kept x (ground arith),
    )

pub memset-inside :
    (s c n : ℕ) (m : Mem) (x : ℕ) → memset s c n m x ≡ (if leb s x && ltb x (s + n) then c else m x)
unfolding memset
memset-inside s c zero m x = ground arith
memset-inside s c (suc n) m x = elim (Bool-cases (x == s)) [
  | inl e ↦
      let place : x ≡ s = ground arith in
      memset-inside (s + 1) c n (write s c m) x
      ∙ ground (arith, write_self s c m, ap (write s c m) place)
  | inr e ↦ memset-inside (s + 1) c n (write s c m) x ∙ ground (arith, write_other s c m x)
]

-- The character at a place of a string, and NUL behind its end.
abbrev pub char_at : List ℕ → ℕ → ℕ
char_at [] i = 0
char_at (c ∷ cs) zero = c
char_at (c ∷ cs) (suc i) = char_at cs i

strncpy-step :
    (dst src next len v : ℕ) (m : Mem)
    → m src ≡ v
    → (if v == 0 then src else src + 1) ≡ next
    → strncpy dst src (suc len) m ≡ strncpy (dst + 1) next len (write dst v m)
unfolding strncpy
strncpy-step dst src next len v m e h = rw (strncpy, e, h) refl

strncpy-none : (dst src : ℕ) (m : Mem) (x : ℕ) → strncpy dst src 0 m x ≡ m x
unfolding strncpy
strncpy-none dst src m x = refl

-- One more byte before those that are known.
grown :
    (dst len : ℕ) (out : Mem) (g : ℕ → ℕ)
    → out dst ≡ g 0
    → ((i : ℕ) → i < len → out (dst + 1 + i) ≡ g (suc i))
    → (i : ℕ) → i < suc len
    → out (dst + i) ≡ g i
grown dst len out g first inside zero lt = ap out (omega arith) ∙ first
grown dst len out g first inside (suc i) lt = ap out (omega arith) ∙ inside i (omega arith)

-- `strncpy` writes `len` bytes, the string cut off or filled up with NULs, and no other byte.
pub strncpy-char_at :
    (dst src len : ℕ) (m : Mem) (cs : List ℕ)
    → Holds m src cs
    → (dst + len ≤ src) ⊎ (src + length cs < dst)
    → ((i : ℕ) → i < len → strncpy dst src len m (dst + i) ≡ char_at cs i)
      × ((x : ℕ) → (x < dst) ⊎ (dst + len ≤ x) → strncpy dst src len m x ≡ m x)
strncpy-char_at dst src zero m cs h apart =
    (λ i lt. absurd (omega arith), λ x out. strncpy-none dst src m x)
strncpy-char_at dst src (suc len) m [] h apart =
    let kept : write dst 0 m src ≡ 0 = write_other dst 0 m src (ground arith) ∙ h in
    let (inside, outside) =
      strncpy-char_at (dst + 1) src len (write dst 0 m) [] kept (ground arith) in
    rw (strncpy-step dst src src len 0 m h refl) (
      grown dst len (strncpy (dst + 1) src len (write dst 0 m)) (char_at [])
          (outside dst (omega arith) ∙ write_self dst 0 m) inside,
      λ x out. outside x (ground arith) ∙ write_other dst 0 m x (ground arith),
    )
strncpy-char_at dst src (suc len) m (c ∷ cs) h apart =
    let kept =
      Holds-Same m (write dst c m) (src + 1) cs h.2
        (λ x le ge. write_other dst c m x (ground arith)) in
    let (inside, outside) =
      strncpy-char_at (dst + 1) (src + 1) len (write dst c m) cs kept (ground arith) in
    let next : (if c == 0 then src else src + 1) ≡ src + 1 = ground (arith, h.1) in
    rw (strncpy-step dst src (src + 1) len c m h.0 next) (
      grown dst len (strncpy (dst + 1) (src + 1) len (write dst c m)) (char_at (c ∷ cs))
          (outside dst (omega arith) ∙ write_self dst c m) inside,
      λ x out. outside x (ground arith) ∙ write_other dst c m x (ground arith),
    )

-- How many characters stand before the first `c`.
abbrev pub index : ℕ → List ℕ → ℕ
index c [] = 0
index c (x ∷ xs) = if x == c then 0 else suc (index c xs)

-- With fuel for the string `strfind` ends at the first `c`, or at the NUL, where `strchr` gives NULL.
pub strfind-index :
    (fuel : ℕ) (m : Mem) (s c : ℕ) (cs : List ℕ)
    → Holds m s cs
    → length cs < fuel
    → (strfind fuel m s c ≡ some (s + index c cs))
      × (strchr fuel m s c
          ≡ some (if ltb (index c cs) (length cs) then some (s + index c cs) else none))
unfolding strfind strchr
strfind-index zero m s c cs h lt = absurd (omega arith)
strfind-index (suc fuel) m s c [] h lt = (ground (arith, h), ground (arith, h))
strfind-index (suc fuel) m s c (x ∷ cs) h lt =
    ground (arith, h.0, h.1, strfind-index fuel m (s + 1) c cs h.2 (omega arith))
