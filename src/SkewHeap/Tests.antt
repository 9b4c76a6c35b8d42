-- ===== src/SkewHeap/Tests.antt =====
-- Skew heaps on concrete nodes.
use os_exercises.Base.{◌≡◌, refl, ltb}
use os_exercises.SkewHeap.{Heap, leaf, node, merge, remove}

abbrev four : Heap
four = node (node leaf 9 leaf) 2 (node leaf 4 (node leaf 5 leaf))

removed : remove ltb 4 four ≡ node (node leaf 9 leaf) 2 (node leaf 5 leaf)
unfolding remove merge
removed = refl
