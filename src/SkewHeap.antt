-- ===== src/SkewHeap.antt =====
-- The skew heap of libs/skew_heap.h. A node is named by what it is embedded in, a number; the
-- parent pointers are left implicit in the tree.
pub mod Agree
pub mod Members
pub mod Order
mod Tests
use os_exercises.Base.{ℕ, Bool, true, false, ◌||◌, ◌==◌, if◌then◌else◌}

-- `skew_heap_entry_t`, with NULL as `leaf`.
pub data Heap : Type 0 where
  leaf : Heap
  node : Heap → ℕ → Heap → Heap

abbrev pub mem : ℕ → Heap → Bool
mem a leaf = false
mem a (node l x r) = a == x || (mem a l || mem a r)

-- `less a b` is `comp(a, b) == -1`.
module _ (less : ℕ → ℕ → Bool) where
  unfoldable pub merge : Heap → Heap → Heap
  merge leaf b = b
  merge (node l x r) leaf = node l x r
  merge (node l x r) (node l' y r') = elim (less x y) [
    | true ↦ node (merge r (node l' y r')) x l
    | false ↦ node (merge (node l x r) r') y l'
  ]

  unfoldable pub insert : Heap → ℕ → Heap
  insert h a = merge h (node leaf a leaf)

  -- The node `a` is replaced by its merged children, under its parent or as the root.
  unfoldable pub remove : ℕ → Heap → Heap
  remove a leaf = leaf
  remove a (node l x r) =
      let left = remove a l in
      let right = remove a r in
      if a == x then merge l r else if mem a l then node left x r else node l x right
