-- ===== src/Pmm/Blocks.antt =====
-- The free list as a sequence of blocks, and first fit on blocks.
use mathlib.Core.Path.{subst, subst₂}
use os_exercises.Base.{
  ℕ, zero, suc, ◌+◌, ◌-◌, ◌≤◌, ◌<◌, ◌≡◌, refl, Option, none, some, List, [], ◌∷◌, ◌++◌, arith,
  length, All, leb, ◌==◌, if◌then◌else◌,
}
use os_exercises.Pmm.{Frames, Area, range}

-- A maximal run of free pages: its first page, and how many follow that one.
pub record Block : Type 0 where
  pub start : ℕ
  pub more : ℕ

abbrev pub block : ℕ → ℕ → Block
block s k = record { start = s; more = k }

-- The pages of the blocks, in order.
abbrev pub expand : List Block → List ℕ
expand [] = []
expand (b ∷ bs) = range b.start (suc b.more) ++ expand bs

-- Blocks from `lo` on, each with a page in use before the next one.
abbrev pub Gapped : ℕ → List Block → Type 0
Gapped lo [] = Unit
Gapped lo (b ∷ bs) = (lo ≤ b.start) × Gapped (b.start + b.more + 2) bs

abbrev pub Zeros : Frames → List ℕ → Type 0
Zeros fr = All (λ p. (fr p).property ≡ 0)

-- `property` holds the size at the first page of a block, and 0 at the others.
abbrev pub Holds : Frames → List Block → Type 0
Holds fr [] = Unit
Holds fr (b ∷ bs) =
    ((fr b.start).property ≡ suc b.more) × Zeros fr (range (b.start + 1) b.more) × Holds fr bs

-- The allocator's state stands for the blocks `bs`.
pub record Repr (a : Area) (bs : List Block) : Type 0 where
  pub pages : a.free_list ≡ expand bs
  pub order : Gapped 0 bs
  pub heads : Holds a.frames bs
  pub count : a.nr_free ≡ length (expand bs)

-- First fit: the first block that is large enough gives its first `n` pages.
unfoldable pub first_fit : ℕ → List Block → Option ℕ × List Block
first_fit n [] = (none, [])
first_fit n (b ∷ bs) =
    let (r, rest) = first_fit n bs in
    if leb n (suc b.more)
    then (some b.start, if n == suc b.more then bs else block (b.start + n) (b.more - n) ∷ bs)
    else (r, b ∷ rest)

pub length-range : (s n : ℕ) → length (range s n) ≡ n
length-range s zero = refl
length-range s (suc n) = omega (arith, length-range (s + 1) n)

pub Gapped-mono : (lo lo' : ℕ) (bs : List Block) → lo' ≤ lo → Gapped lo bs → Gapped lo' bs
Gapped-mono lo lo' [] h g = tt
Gapped-mono lo lo' (b ∷ bs) h g = (omega arith, g.1)

-- `g` has the values of `property` that `f` has, from `lo` on.
abbrev pub SameFrom : ℕ → Frames → Frames → Type 0
SameFrom lo f g = (p : ℕ) → lo ≤ p → (g p).property ≡ (f p).property

pub Zeros-range :
    (f g : Frames) (s n : ℕ)
    → ((p : ℕ) → s ≤ p → p < s + n → (g p).property ≡ (f p).property)
    → Zeros f (range s n)
    → Zeros g (range s n)
Zeros-range f g s zero h z = tt
Zeros-range f g s (suc n) h z =
    let first = h s (omega arith) (omega arith) in
    (ground arith, Zeros-range f g (s + 1) n (λ p le lt. h p (omega arith) (omega arith)) z.1)

sub-zero_left : (i : ℕ) → 0 - i ≡ 0
sub-zero_left i = omega arith

pub Zeros-drop :
    (f : Frames) (i s m t : ℕ) → s + i ≡ t → Zeros f (range s m) → Zeros f (range t (m - i))
Zeros-drop f zero s m t e z =
    let at : s ≡ t = omega arith in
    let all : m ≡ m - 0 = omega arith in subst₂ (λ a b. Zeros f (range a b)) at all z
Zeros-drop f (suc i) s zero t e z = rw (sub-zero_left (suc i)) tt
Zeros-drop f (suc i) s (suc m) t e z =
    let left : m - i ≡ suc m - suc i = omega arith in
    subst (λ k. Zeros f (range t k)) left (Zeros-drop f i (s + 1) m t (omega arith) z.1)

pub Zeros-take : (f : Frames) (s i m : ℕ) → i ≤ m → Zeros f (range s m) → Zeros f (range s i)
Zeros-take f s zero m h z = tt
Zeros-take f s (suc i) zero h z = absurd (omega arith)
Zeros-take f s (suc i) (suc m) h z = (z.0, Zeros-take f (s + 1) i m (omega arith) z.1)

pub Holds-same :
    (lo : ℕ) (f g : Frames) (bs : List Block)
    → SameFrom lo f g
    → Gapped lo bs
    → Holds f bs
    → Holds g bs
Holds-same lo f g [] h o k = tt
Holds-same lo f g (b ∷ bs) h o k = (
  ground (arith, h b.start),
  Zeros-range f g (b.start + 1) b.more (λ p le lt. h p (omega arith)) k.1,
  Holds-same (b.start + b.more + 2) f g bs (λ p le. h p (omega arith)) o.1 k.2,
)
