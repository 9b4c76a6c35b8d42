-- ===== src/Strings/Order.antt =====
-- The comparisons of libs/string.c and libs/x86.h against the order of words in a dictionary.
use Prim.Native.Nat.{compare, Ordering}
use os_exercises.Base.{
  ℕ, zero, suc, ◌+◌, ◌-◌, ◌<◌, ◌≡◌, ◌≢◌, refl, ap, ◌∙◌, none, some, List, [], ◌∷◌, arith, ltb, ◌==◌,
  length, Bool-cases, sym, not, ◌&&◌, Bool, true, false, ◌⊎◌, inl, inr,
}
use os_exercises.Strings.{Mem, ℤ, pos, negsuc, difference, strcmp, x86_strcmp}
use os_exercises.Strings.Memory.{Holds}

-- What a caller reads of the result.
abbrev pub sign : ℤ → Ordering
sign (negsuc n) = Ordering.lt
sign (pos zero) = Ordering.eq
sign (pos (suc n)) = Ordering.gt

-- The first place where two strings differ decides, and an end comes before every character.
abbrev pub dictionary : List ℕ → List ℕ → Ordering
dictionary [] [] = Ordering.eq
dictionary [] (y ∷ ys) = Ordering.lt
dictionary (x ∷ xs) [] = Ordering.gt
dictionary (x ∷ xs) (y ∷ ys) = elim (compare x y) [
  | Ordering.lt ↦ Ordering.lt
  | Ordering.eq ↦ dictionary xs ys
  | Ordering.gt ↦ Ordering.gt
]

sign-zero : (k : ℕ) → k ≡ 0 → sign (pos k) ≡ Ordering.eq
sign-zero k e = rw (e) refl

sign-positive : (k : ℕ) → 0 < k → sign (pos k) ≡ Ordering.gt
sign-positive zero lt = absurd (omega arith)
sign-positive (suc k) lt = refl

pub sign-difference : (a b : ℕ) → sign (difference a b) ≡ compare a b
unfolding difference
sign-difference a b = elim (Bool-cases (ltb a b)) [
  | inl e ↦ rw (e) ground arith
  | inr e ↦ elim (Bool-cases (a == b)) [
    | inl same ↦ rw (e) (sign-zero (a - b) (ground arith) ∙ ground arith)
    | inr other ↦ rw (e) (sign-positive (a - b) (ground arith) ∙ ground arith)
  ]
]

alike : ℕ → ℕ → Bool
alike a b = not (a == 0) && (a == b)

alike-same : (a : ℕ) → a ≢ 0 → alike a a ≡ true
unfolding alike
alike-same zero h = absurd (h refl)
alike-same (suc a) h = ground arith

alike-other : (a b : ℕ) → (a ≡ 0) ⊎ (a ≢ b) → alike a b ≡ false
unfolding alike
alike-other zero b h = refl
alike-other (suc a) b h = ground arith

strcmp-alike :
    (fuel : ℕ) (m : Mem) (s1 s2 : ℕ)
    → alike (m s1) (m s2) ≡ true
    → strcmp (suc fuel) m s1 s2 ≡ strcmp fuel m (s1 + 1) (s2 + 1)
unfolding strcmp alike
strcmp-alike fuel m s1 s2 e = rw (strcmp, e) refl

strcmp-unlike :
    (fuel : ℕ) (m : Mem) (s1 s2 : ℕ)
    → alike (m s1) (m s2) ≡ false
    → strcmp (suc fuel) m s1 s2 ≡ some (difference (m s1) (m s2))
unfolding strcmp alike
strcmp-unlike fuel m s1 s2 e = rw (strcmp, e) refl

-- With fuel for the first string `strcmp` ends, and its sign is the order of the two strings.
pub strcmp-dictionary :
    (fuel : ℕ) (m : Mem) (s1 s2 : ℕ) (xs ys : List ℕ)
    → Holds m s1 xs
    → Holds m s2 ys
    → length xs < fuel
    → (z : ℤ) × (strcmp fuel m s1 s2 ≡ some z) × (sign z ≡ dictionary xs ys)
strcmp-dictionary zero m s1 s2 xs ys hx hy lt = absurd (omega arith)
strcmp-dictionary (suc fuel) m s1 s2 [] ys hx hy lt = (
  difference (m s1) (m s2),
  strcmp-unlike fuel m s1 s2 (alike-other (m s1) (m s2) (inl hx)),
  sign-difference (m s1) (m s2) ∙ end ys hy,
)
  where
    end : (ys : List ℕ) → Holds m s2 ys → compare (m s1) (m s2) ≡ dictionary [] ys
    end [] hy = ground (arith, hx, hy)
    end (y ∷ ys) hy = ground (arith, hx, hy.0, hy.1)
strcmp-dictionary (suc fuel) m s1 s2 (x ∷ xs) [] hx hy lt = (
  difference (m s1) (m s2),
  strcmp-unlike fuel m s1 s2 (alike-other (m s1) (m s2) (inr (ground (arith, hx.0, hx.1, hy)))),
  sign-difference (m s1) (m s2) ∙ ground (arith, hx.0, hx.1, hy),
)
strcmp-dictionary (suc fuel) m s1 s2 (x ∷ xs) (y ∷ ys) hx hy lt = elim (Bool-cases (x == y)) [
  | inl e ↦
      let same : x ≡ y = ground arith in
      let (z, run, order) =
        strcmp-dictionary fuel m (s1 + 1) (s2 + 1) xs ys hx.2 hy.2 (omega arith) in
      let go : alike (m s1) (m s2) ≡ true = rw (hx.0, hy.0, ← same) (alike-same x hx.1) in
      (z, strcmp-alike fuel m s1 s2 go ∙ run, order ∙ ground arith)
  | inr e ↦
      let other : m s1 ≢ m s2 = ground (arith, hx.0, hy.0) in
      (
        difference (m s1) (m s2),
        strcmp-unlike fuel m s1 s2 (alike-other (m s1) (m s2) (inr other)),
        sign-difference (m s1) (m s2) ∙ ground (arith, hx.0, hy.0),
      )
]

x86_strcmp-alike :
    (fuel : ℕ) (m : Mem) (s1 s2 : ℕ)
    → alike (m s1) (m s2) ≡ true
    → x86_strcmp (suc fuel) m s1 s2 ≡ x86_strcmp fuel m (s1 + 1) (s2 + 1)
unfolding x86_strcmp alike
x86_strcmp-alike fuel m s1 s2 e = elim (Bool-cases (m s1 == m s2)) [
  | inl same ↦ elim (Bool-cases (m s1 == 0)) [
    | inl end ↦ let never = rw end at e in cc
    | inr more ↦ rw (x86_strcmp, same, more) refl
  ]
  | inr other ↦ elim (Bool-cases (m s1 == 0)) [
    | inl end ↦ let never = rw end at e in cc
    | inr more ↦ let never = rw (more, other) at e in cc
  ]
]

x86_strcmp-unlike :
    (fuel : ℕ) (m : Mem) (s1 s2 : ℕ)
    → alike (m s1) (m s2) ≡ false
    → (z' : ℤ) × (x86_strcmp (suc fuel) m s1 s2 ≡ some z') × (sign z' ≡ compare (m s1) (m s2))
unfolding x86_strcmp alike
x86_strcmp-unlike fuel m s1 s2 e = elim (Bool-cases (m s1 == m s2)) [
  | inl same ↦ elim (Bool-cases (m s1 == 0)) [
    | inl end ↦ (pos 0, rw (x86_strcmp, same, end) refl, ground arith)
    | inr more ↦ let never = rw (more, same) at e in absurd ground arith
  ]
  | inr other ↦ elim (Bool-cases (ltb (m s1) (m s2))) [
    | inl less ↦ (negsuc 0, rw (x86_strcmp, other, less) refl, ground arith)
    | inr more ↦ (pos 1, rw (x86_strcmp, other, more) refl, ground arith)
  ]
]

strcmp-none : (m : Mem) (s1 s2 : ℕ) → strcmp 0 m s1 s2 ≡ none
unfolding strcmp
strcmp-none m s1 s2 = refl

-- The x86 form ends when `strcmp` does, and tells the same order.
pub x86_strcmp-strcmp :
    (fuel : ℕ) (m : Mem) (s1 s2 : ℕ) (z : ℤ)
    → strcmp fuel m s1 s2 ≡ some z
    → (z' : ℤ) × (x86_strcmp fuel m s1 s2 ≡ some z') × (sign z' ≡ sign z)
x86_strcmp-strcmp zero m s1 s2 z h = absurd (ground (arith, strcmp-none m s1 s2))
x86_strcmp-strcmp (suc fuel) m s1 s2 z h = elim (Bool-cases (alike (m s1) (m s2))) [
  | inl e ↦
      let (z', run, same) =
        x86_strcmp-strcmp fuel m (s1 + 1) (s2 + 1) z (sym (strcmp-alike fuel m s1 s2 e) ∙ h) in
      (z', x86_strcmp-alike fuel m s1 s2 e ∙ run, same)
  | inr e ↦
      let (z', run, order) = x86_strcmp-unlike fuel m s1 s2 e in
      let value : difference (m s1) (m s2) ≡ z = cc (strcmp-unlike fuel m s1 s2 e, h) in
      (z', run, order ∙ sym (sign-difference (m s1) (m s2)) ∙ ap sign value)
]
