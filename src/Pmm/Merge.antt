-- ===== src/Pmm/Merge.antt =====
-- The moves of `property` when `default_free_pages` joins blocks.
use mathlib.Core.Path.{subst, subst₂}
use mathlib.Core.List.{append_assoc, reverse-append, reverse-cons}
use os_exercises.Base.{
  ℕ, zero, suc, ◌+◌, ◌<◌, ◌≡◌, ◌≢◌, refl, ◌∙◌, List, [], ◌∷◌, ◌++◌, reverse, arith, All, ◌==◌,
  if◌then◌else◌, Bool-cases, inl, inr,
}
use os_exercises.Pmm.{Frames, take_over, range, merge_after, merge_back, merge_before}
use os_exercises.Pmm.Blocks.{Block, expand, Gapped, Zeros, Zeros-range, Holds, Holds-same}
use os_exercises.Pmm.Release.{join_right}

pub Zeros-join :
    (f : Frames) (s k t j : ℕ)
    → s + k ≡ t
    → Zeros f (range s k)
    → Zeros f (range t j)
    → Zeros f (range s (k + j))
Zeros-join f s zero t j e z z' =
    let from : t ≡ s = omega arith in
    let size : j ≡ 0 + j = omega arith in subst₂ (λ a b. Zeros f (range a b)) from size z'
Zeros-join f s (suc k) t j e z z' =
    let size : suc (k + j) ≡ suc k + j = omega arith in
    subst (λ n. Zeros f (range s n)) size (z.0, Zeros-join f (s + 1) k t j (omega arith) z.1 z')

pub Holds-before :
    (hi : ℕ) (f g : Frames) (bs : List Block)
    → All (λ b. b.start + b.more < hi) bs
    → ((p : ℕ) → p < hi → (g p).property ≡ (f p).property)
    → Holds f bs
    → Holds g bs
Holds-before hi f g [] a h k = tt
Holds-before hi f g (b ∷ bs) a h k = (
  ground (arith, h b.start),
  Zeros-range f g (b.start + 1) b.more (λ p le lt. h p (omega arith)) k.1,
  Holds-before hi f g bs a.1 h k.2,
)

pub property-take_over :
    (to from p : ℕ) (fr : Frames)
    → to ≢ from
    → (take_over to from fr p).property ≡ (
        if p == from
        then 0
        else if p == to
        then (fr to).property + (fr from).property
        else (fr p).property)
unfolding take_over
property-take_over to from p fr ne = ground arith

-- The run, and the block that starts right behind it.
module _ (f : Frames) (base m : ℕ) (headed : (f base).property ≡ suc m)
    (inner : Zeros f (range (base + 1) m)) where
  pub Holds-right :
      (post : List Block)
      → Gapped (base + suc m) post
      → Holds f post
      → Holds (merge_after base (suc m) f (expand post)) (join_right base m post)
  Holds-right [] g k = (headed, inner, tt)
  Holds-right (c ∷ cs) g k = elim (Bool-cases (base + suc m == c.start)) [
    | inr e ↦ rw e (headed, inner, k)
    | inl e ↦
        let taken = λ (p : ℕ). property-take_over base c.start p f (ground arith) in
        let far = Zeros-range f (take_over base c.start f) in
        let left = far (base + 1) m (λ p le lt. ground (arith, taken p)) inner in
        let right = far (c.start + 1) c.more (λ p le lt. ground (arith, taken p)) k.1 in
        let middle : (take_over base c.start f c.start).property ≡ 0 =
          ground (arith, taken c.start) in
        rw e (
          ground (arith, taken base),
          Zeros-join (take_over base c.start f) (base + 1) m c.start (suc c.more) (ground arith)
              left (middle, right),
          Holds-same (c.start + c.more + 2) f (take_over base c.start f) cs
              (λ p le. ground (arith, taken p)) g.1 k.2,
        )
  ]

  pub merge_after-below :
      (post : List Block) (p : ℕ)
      → Gapped (base + suc m) post
      → p < base
      → (merge_after base (suc m) f (expand post) p).property ≡ (f p).property
  merge_after-below [] p g h = refl
  merge_after-below (c ∷ cs) p g h = ground (arith, property-take_over base c.start p f)

merge_back-skip :
    (base : ℕ) (fr : Frames) (l rest : List ℕ)
    → Zeros fr l
    → merge_back base fr (l ++ rest) ≡ merge_back base fr rest
unfolding merge_back
merge_back-skip base fr [] rest z = refl
merge_back-skip base fr (p ∷ l) rest z = ground (arith, merge_back-skip base fr l rest z.1)

Zeros-append : (fr : Frames) (l l' : List ℕ) → Zeros fr l → Zeros fr l' → Zeros fr (l ++ l')
Zeros-append fr [] l' z z' = z'
Zeros-append fr (p ∷ l) l' z z' = (z.0, Zeros-append fr l l' z.1 z')

Zeros-reverse : (fr : Frames) (l : List ℕ) → Zeros fr l → Zeros fr (reverse l)
Zeros-reverse fr [] z = tt
Zeros-reverse fr (p ∷ l) z =
    rw reverse-cons (Zeros-append fr (reverse l) (p ∷ []) (Zeros-reverse fr l z.1) (z.0, tt))

range-snoc : (s k : ℕ) → range s (suc k) ≡ range s k ++ ((s + k) ∷ [])
range-snoc s zero = ground arith
range-snoc s (suc k) = ground (arith, range-snoc (s + 1) k)

merge_back-block :
    (base s k : ℕ) (fr : Frames) (rest : List ℕ)
    → (fr s).property ≡ suc k
    → Zeros fr (range (s + 1) k)
    → merge_back base fr (reverse (range s (suc k)) ++ rest) ≡ take_over s base fr
merge_back-block base s k fr rest e z =
    let skip =
      merge_back-skip base fr (reverse (range (s + 1) k)) (s ∷ rest) (Zeros-reverse fr _ z) in
    rw (reverse-cons, append_assoc) (skip ∙ found)
  where
    found : merge_back base fr (s ∷ rest) ≡ take_over s base fr
    found = unfold merge_back in ground arith

pub merge_before-block :
    (base s k : ℕ) (fr : Frames) (rest : List ℕ)
    → (fr s).property ≡ suc k
    → Zeros fr (range (s + 1) k)
    → merge_before base fr (reverse (range s (suc k)) ++ rest)
      ≡ (if s + k + 1 == base then take_over s base fr else fr)
merge_before-block base s k fr rest e z =
    let back = merge_back-block base s k fr rest e z in
    let shape : reverse (range s (suc k)) ++ rest ≡ (s + k) ∷ (reverse (range s k) ++ rest) =
      rw (range-snoc, reverse-append) refl in
    let back' : merge_back base fr ((s + k) ∷ (reverse (range s k) ++ rest)) ≡ take_over s base fr =
      (rw shape at back) in
    rw shape (ground (arith, back'))
