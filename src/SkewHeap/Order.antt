-- ===== src/SkewHeap/Order.antt =====
-- The heap order: no node is less than its parent.
use os_exercises.Base.{ℕ, ◌≡◌, refl, Bool, true, false, arith, ◌==◌}
use os_exercises.SkewHeap.{Heap, leaf, node, mem, merge, insert, remove}

module _ (less : ℕ → ℕ → Bool) where
  -- `x` is not above a node of the heap.
  abbrev pub Bounds : ℕ → Heap → Type 0
  Bounds x leaf = Unit
  Bounds x (node l y r) = less y x ≡ false

  abbrev pub IsHeap : Heap → Type 0
  IsHeap leaf = Unit
  IsHeap (node l x r) = Bounds x l × Bounds x r × IsHeap l × IsHeap r

  Bounds-trans :
      ((x y z : ℕ) → less y x ≡ false → less z y ≡ false → less z x ≡ false)
      → (x y : ℕ) (h : Heap) → less y x ≡ false
      → Bounds y h
      → Bounds x h
  Bounds-trans trans x y leaf e b = tt
  Bounds-trans trans x y (node l z r) e b = trans x y z e b

  module _ (asym : (x y : ℕ) → less x y ≡ true → less y x ≡ false) where
    merge-Bounds : (x : ℕ) (h k : Heap) → Bounds x h → Bounds x k → Bounds x (merge less h k)
    unfolding merge
    merge-Bounds x leaf k b c = c
    merge-Bounds x (node l y r) leaf b c = b
    merge-Bounds x (node l y r) (node l' z r') b c = ground arith

    -- Merging keeps the heap order.
    pub merge-IsHeap : (h k : Heap) → IsHeap h → IsHeap k → IsHeap (merge less h k)
    unfolding merge
    merge-IsHeap leaf k i j = j
    merge-IsHeap (node l x r) leaf i j = i
    merge-IsHeap (node l x r) (node l' y r') i j = ground (
      arith,
      merge-IsHeap r (node l' y r') i.3 j,
      merge-IsHeap (node l x r) r' i j.3,
      merge-Bounds x r (node l' y r') i.1,
      merge-Bounds y (node l x r) r',
      asym x y,
    )

    pub insert-IsHeap : (h : Heap) (a : ℕ) → IsHeap h → IsHeap (insert less h a)
    unfolding insert
    insert-IsHeap h a i = merge-IsHeap h (node leaf a leaf) i (tt, tt, tt, tt)

    module _ (trans : (x y z : ℕ) → less y x ≡ false → less z y ≡ false → less z x ≡ false) where
      remove-Bounds : (x a : ℕ) (h : Heap) → IsHeap h → Bounds x h → Bounds x (remove less a h)
      unfolding remove
      remove-Bounds x a leaf i b = tt
      remove-Bounds x a (node l y r) i b =
          let left = Bounds-trans trans x y l b i.0 in
          let right = Bounds-trans trans x y r b i.1 in
          ground (arith, merge-Bounds x l r left right)

      -- Removing a node keeps the heap order, for a comparison that is asymmetric and whose
      -- negation is transitive.
      pub remove-IsHeap : (a : ℕ) (h : Heap) → IsHeap h → IsHeap (remove less a h)
      unfolding remove
      remove-IsHeap a leaf i = tt
      remove-IsHeap a (node l x r) i = ground (
        arith,
        merge-IsHeap l r i.2 i.3,
        remove-IsHeap a l i.2,
        remove-IsHeap a r i.3,
        remove-Bounds x a l i.2 i.0,
        remove-Bounds x a r i.3 i.1,
      )

  -- Nothing in the heap is less than its root.
  pub root_least :
      ((x y z : ℕ) → less y x ≡ false → less z y ≡ false → less z x ≡ false)
      → (a x : ℕ) (h : Heap) → Bounds x h
      → IsHeap h
      → mem a h ≡ true
      → less a x ≡ false
  root_least trans a x leaf b i m = cc
  root_least trans a x (node l y r) b i m =
      in_node (a == y) (mem a l) refl refl
        (λ e. root_least trans a x l (Bounds-trans trans x y l b i.0) i.2 e)
        (λ e. root_least trans a x r (Bounds-trans trans x y r b i.1) i.3 e)
    where
      in_node :
          (at left : Bool)
          → (a == y) ≡ at
          → mem a l ≡ left
          → (mem a l ≡ true → less a x ≡ false)
          → (mem a r ≡ true → less a x ≡ false)
          → less a x ≡ false
      in_node true left at_root e f g = let same : a ≡ y = ground arith in rw same b
      in_node false true at_root e f g = f e
      in_node false false at_root e f g = g (rw (at_root, e) at m)
