-- ===== src/SkewHeap/Members.antt =====
-- What a skew heap holds: merging adds the counts, removal takes one away.
use os_exercises.Base.{ℕ, ◌+◌, ◌<◌, ◌≡◌, refl, Bool, true, false, arith, ◌==◌, if◌then◌else◌}
use os_exercises.SkewHeap.{Heap, leaf, node, mem, merge, insert, remove}

abbrev pub count : ℕ → Heap → ℕ
count a leaf = 0
count a (node l x r) = (if a == x then 1 else 0) + (count a l + count a r)

pub count-mem : (a : ℕ) (h : Heap) → mem a h ≡ false → count a h ≡ 0
count-mem a leaf e = refl
count-mem a (node l x r) e = ground (arith, count-mem a l, count-mem a r)

module _ (less : ℕ → ℕ → Bool) where
  -- `skew_heap_merge` loses and doubles no node.
  pub count-merge : (a : ℕ) (h k : Heap) → count a (merge less h k) ≡ count a h + count a k
  unfolding merge
  count-merge a leaf k = omega arith
  count-merge a (node l x r) leaf = omega arith
  count-merge a (node l x r) (node l' y r') =
      ground (arith, count-merge a r (node l' y r'), count-merge a (node l x r) r')

  pub count-insert :
      (a b : ℕ) (h : Heap) → count a (insert less h b) ≡ (if a == b then 1 else 0) + count a h
  unfolding insert
  count-insert a b h = omega (arith, count-merge a h (node leaf b leaf))

  pub mem-count : (a : ℕ) (h : Heap) → mem a h ≡ true → 0 < count a h
  mem-count a leaf e = cc
  mem-count a (node l x r) e = ground (arith, mem-count a l, mem-count a r)

  -- `skew_heap_remove` takes one node away, the one that it is given, if the heap holds it.
  pub count-remove :
      (a b : ℕ) (h : Heap)
      → mem b h ≡ true
      → count a (remove less b h) + (if a == b then 1 else 0) ≡ count a h
  unfolding remove
  count-remove a b leaf e = cc
  count-remove a b (node l x r) e =
      ground (arith, count-remove a b l, count-remove a b r, count-merge a l r)
