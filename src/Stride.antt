-- ===== src/Stride.antt =====
-- The stride scheduling class (kern/schedule/default_sched.c, with USE_SKEW_HEAP).
pub mod Compare
pub mod Fair
mod Tests
pub mod Turn
use os_exercises.Base.{
  ℕ, ◌+◌, ◌-◌, ◌/◌, ◌%◌, ◌^◌, Bool, true, false, Option, none, some, ◌||◌, ltb, leb, ◌==◌,
  if◌then◌else◌,
}
use os_exercises.SkewHeap.{Heap, leaf, node, insert, remove}

-- The fields of `struct proc_struct` that the class reads and writes.
pub record Share : Type 0 where
  pub time_slice : ℕ
  pub stride : ℕ
  pub priority : ℕ
  pub need_resched : Bool

-- `struct run_queue`, with the shares of all processes by their number.
pub record Queue : Type 0 where
  pub pool : Heap
  pub proc_num : ℕ
  pub max_time_slice : ℕ
  pub share : ℕ → Share

abbrev pub big_stride : ℕ
big_stride = 0x7FFFFFFF

abbrev pub put_share : (ℕ → Share) → ℕ → Share → ℕ → Share
put_share f p c q = if q == p then c else f q

-- `proc_stride_comp_f(a, b) == -1`: the 32-bit difference is negative as an `int32_t`.
unfoldable pub stride_less : ℕ → ℕ → Bool
stride_less p q = leb (2 ^ 31) ((p + 2 ^ 32 - q) % 2 ^ 32)

abbrev pub less : (ℕ → Share) → ℕ → ℕ → Bool
less f a b = stride_less (f a).stride (f b).stride

unfoldable pub stride_init : Queue → Queue
stride_init rq = record rq { pool = leaf; proc_num = 0 }

unfoldable pub stride_enqueue : Queue → ℕ → Queue
stride_enqueue rq p =
    let c = rq.share p in
    record rq {
      pool = insert (less rq.share) rq.pool p;
      proc_num = (rq.proc_num + 1) % 2 ^ 32;
      share = put_share rq.share p (
          if c.time_slice == 0 || ltb rq.max_time_slice c.time_slice
          then record c { time_slice = rq.max_time_slice }
          else c);
    }

unfoldable pub stride_dequeue : Queue → ℕ → Queue
stride_dequeue rq p = record rq {
  pool = remove (less rq.share) p rq.pool;
  proc_num = (rq.proc_num + 2 ^ 32 - 1) % 2 ^ 32;
}

-- How far a turn advances the stride.
unfoldable pub pass : ℕ → ℕ
pass priority = if priority == 0 then big_stride else big_stride / priority

abbrev pub pick : Queue → Heap → Option ℕ × Queue
pick rq leaf = (none, rq)
pick rq (node l p r) =
    let c = rq.share p in
    (
      some p,
      record rq {
        share = put_share rq.share p (record c { stride = (c.stride + pass c.priority) % 2 ^ 32 });
      },
    )

unfoldable pub stride_pick_next : Queue → Option ℕ × Queue
stride_pick_next rq = pick rq rq.pool

unfoldable pub stride_proc_tick : Queue → ℕ → Queue
stride_proc_tick rq p =
    let c = rq.share p in
    let left = if ltb 0 c.time_slice then c.time_slice - 1 else c.time_slice in
    record rq {
      share = put_share rq.share p (record c {
        time_slice = left;
        need_resched = if left == 0 then true else c.need_resched;
      });
    }
