-- ===== src/Stride/Tests.antt =====
-- The stride scheduler on a pool of two.
use os_exercises.Base.{ℕ, ◌≤◌, ◌≡◌, ◌⊎◌, refl, true, false, none, some, arith, ◌==◌, if◌then◌else◌}
use os_exercises.SkewHeap.{leaf, node, mem}
use os_exercises.Stride.{Queue, stride_pick_next, stride_less}
use os_exercises.Stride.Fair.{IsPool, stride_pick_next-least}

-- The stride of process 2 has wrapped round.
abbrev V : ℕ → ℕ
V p = if p == 1 then 0xffff_fff0 else 0x1_0000_0010

abbrev queue : Queue
queue = record {
  pool = node (node leaf 2 leaf) 1 leaf;
  proc_num = 2;
  max_time_slice = 5;
  share = λ p. record {
    time_slice = 5;
    stride = if p == 1 then 0xffff_fff0 else 0x10;
    priority = if p == 1 then 2 else 0;
    need_resched = false;
  };
}

queue-IsPool : IsPool V 0xffff_fff0 queue
unfolding stride_less
queue-IsPool = record { heap = (refl, tt, (tt, tt, tt, tt), tt); window = omega arith }

stride_pick_next-least_example :
    (((stride_pick_next queue).0 ≡ none) × (queue.pool ≡ leaf))
    ⊎ ((p : ℕ) × ((stride_pick_next queue).0 ≡ some p)
        × (mem p queue.pool ≡ true)
        × ((q : ℕ) → mem q queue.pool ≡ true → V p ≤ V q))
stride_pick_next-least_example =
    stride_pick_next-least {V = V} {lo = 0xffff_fff0} {rq = queue} queue-IsPool
