-- ===== src/SkewHeap/Agree.antt =====
-- Merging looks only at its nodes: two comparisons that agree on them give the same heap.
use mathlib.Core.Path.{subst}
use os_exercises.Base.{ℕ, ◌≡◌, ◌⊎◌, refl, sym, Bool, true, false, arith, inl, inr}
use os_exercises.SkewHeap.{Heap, leaf, node, mem, merge}

abbrev pub Within : (ℕ → Type 0) → Heap → Type 0
Within P leaf = Unit
Within P (node l x r) = P x × Within P l × Within P r

pub Within-mono :
    (P Q : ℕ → Type 0) (h : Heap) → ((a : ℕ) → mem a h ≡ true → P a → Q a) → Within P h → Within Q h
Within-mono P Q leaf f w = tt
Within-mono P Q (node l x r) f w = (
  f x (ground arith) w.0,
  Within-mono P Q l (λ a m. f a (ground arith)) w.1,
  Within-mono P Q r (λ a m. f a (ground arith)) w.2,
)

pub mem-node :
    (a x : ℕ) (l r : Heap)
    → mem a (node l x r) ≡ true
    → (a ≡ x) ⊎ (mem a l ≡ true) ⊎ (mem a r ≡ true)
mem-node a x l r m = ground arith

pub Within-mem : (P : ℕ → Type 0) (a : ℕ) (h : Heap) → Within P h → mem a h ≡ true → P a
Within-mem P a leaf w m = cc
Within-mem P a (node l x r) w m = elim (mem-node a x l r m) [
  | inl e ↦ subst P (sym e) w.0
  | inr (inl i) ↦ Within-mem P a l w.1 i
  | inr (inr i) ↦ Within-mem P a r w.2 i
]

module _ (P : ℕ → Type 0) where
  pub Within-merge :
      (less : ℕ → ℕ → Bool) (h k : Heap) → Within P h → Within P k → Within P (merge less h k)
  unfolding merge
  Within-merge less leaf k w v = v
  Within-merge less (node l x r) leaf w v = w
  Within-merge less (node l x r) (node l' y r') w v =
      split (less x y) (Within-merge less r (node l' y r') w.2 v)
        (Within-merge less (node l x r) r' w v.2)
    where
      split :
          (b : Bool)
          → Within P (merge less r (node l' y r'))
          → Within P (merge less (node l x r) r')
          → Within P (elim b [
            | true ↦ node (merge less r (node l' y r')) x l
            | false ↦ node (merge less (node l x r) r') y l'
          ])
      split true i j = (w.0, i, w.1)
      split false i j = (v.0, j, v.1)

  pub merge-agree :
      (less less' : ℕ → ℕ → Bool) (h k : Heap)
      → ((a b : ℕ) → P a → P b → less a b ≡ less' a b)
      → Within P h
      → Within P k
      → merge less h k ≡ merge less' h k
  unfolding merge
  merge-agree less less' leaf k f w v = refl
  merge-agree less less' (node l x r) leaf f w v = refl
  merge-agree less less' (node l x r) (node l' y r') f w v = ground (
    arith,
    f x y w.0 v.0,
    merge-agree less less' r (node l' y r') f w.2 v,
    merge-agree less less' (node l x r) r' f w v.2,
  )
