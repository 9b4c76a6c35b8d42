-- ===== src/Stride/Turn.antt =====
-- A turn: the picked process leaves the run pool, and comes back with a larger stride.
use os_exercises.Base.{ℕ, ◌+◌, ◌≡◌, ◌==◌, if◌then◌else◌}
use os_exercises.SkewHeap.{Heap, node}
use os_exercises.SkewHeap.Members.{count}
use os_exercises.Stride.{Queue, pass, pick}
use os_exercises.Stride.Fair.{InWindow, IsValid}

-- The unbounded strides after a turn of `p`.
abbrev pub advanced : (ℕ → ℕ) → ℕ → ℕ → ℕ → ℕ
advanced V p d q = if q == p then V p + d else V q

-- What the pick of `p` and its removal leave, ready for `p` to come back.
record Turned (V : ℕ → ℕ) (p : ℕ) (rq' : Queue) (d : ℕ) : Type 0 where
  valid : IsValid (advanced V p d) (V p) rq'
  gone : count p rq'.pool ≡ 0
  ready : InWindow (advanced V p d) (V p) rq'.share p

module _ (V : ℕ → ℕ) (lo : ℕ) (rq : Queue) (l r : Heap) (x : ℕ)
    (v : IsValid V lo (record rq { pool = node l x r })) where
  abbrev gain : ℕ
  gain = pass (rq.share x).priority

  abbrev picked : Queue
  picked = (pick (record rq { pool = node l x r }) (node l x r)).1
