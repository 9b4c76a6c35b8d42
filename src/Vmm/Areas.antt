-- ===== src/Vmm/Areas.antt =====
-- The order of `mmap_list`: the areas are not empty, ascend and do not overlap.
use os_exercises.Base.{
  ℕ, ◌≤◌, ◌<◌, ◌≡◌, refl, true, Option, none, some, List, [], ◌∷◌, ◌⊎◌, inl, inr, arith, length,
  Any,
}
use os_exercises.Vmm.{Vma, Mm, contains, find_in}

-- The areas from `lo` on, each behind the one before.
abbrev pub Chain : ℕ → List Vma → Type 0
Chain lo [] = Unit
Chain lo (v ∷ vs) = (lo ≤ v.vm_start) × (v.vm_start < v.vm_end) × Chain v.vm_end vs

-- `w` and `v` share no address.
abbrev pub Apart : Vma → Vma → Type 0
Apart v w = (v.vm_end ≤ w.vm_start) ⊎ (w.vm_end ≤ v.vm_start)

abbrev pub CacheIn : List Vma → Option Vma → Type 0
CacheIn vs none = Unit
CacheIn vs (some v) = Any (λ w. w ≡ v) vs

-- The invariant of `mm_struct`: order, the count of areas, and a cache that points into the list.
pub record IsValid (mm : Mm) : Type 0 where
  pub chain : Chain 0 mm.mmap_list
  pub count : mm.map_count ≡ length mm.mmap_list
  pub cache : CacheIn mm.mmap_list mm.mmap_cache

pub Chain-mono : (lo lo' : ℕ) (vs : List Vma) → lo' ≤ lo → Chain lo vs → Chain lo' vs
Chain-mono lo lo' [] h c = tt
Chain-mono lo lo' (v ∷ vs) h c = (omega arith, c.1, c.2)

-- An area that holds an address is the one that the walk finds.
pub find_in-below : (lo : ℕ) (vs : List Vma) (a : ℕ) → Chain lo vs → a < lo → find_in vs a ≡ none
unfolding find_in
find_in-below lo [] a c h = refl
find_in-below lo (v ∷ vs) a c h = ground (arith, find_in-below v.vm_end vs a c.2)

pub find_in_unique :
    (lo : ℕ) (vs : List Vma) (v : Vma) (a : ℕ)
    → Chain lo vs
    → Any (λ w. w ≡ v) vs
    → contains v a ≡ true
    → find_in vs a ≡ some v
unfolding find_in
find_in_unique lo [] v a c m h = elim m [ ]
find_in_unique lo (w ∷ vs) v a c (inl e) h = ground arith
find_in_unique lo (w ∷ vs) v a c (inr m) h =
    ground (arith, find_in_unique w.vm_end vs v a c.2 m h, find_in-below w.vm_end vs a c.2)

pub find_in-mem :
    (vs : List Vma) (a : ℕ) (v : Vma)
    → find_in vs a ≡ some v
    → Any (λ w. w ≡ v) vs × (contains v a ≡ true)
unfolding find_in
find_in-mem [] a v h = ground arith
find_in-mem (w ∷ vs) a v h = ground (arith, find_in-mem vs a v)
