-- ===== src/Stride/Fair.antt =====
-- The run pool: the process with the least stride is picked, and a turn keeps the strides within
-- BIG_STRIDE of one another.
use os_exercises.Base.{
  ℕ, ◌+◌, ◌%◌, ◌^◌, ◌≤◌, ◌≡◌, ◌∙◌, ◌⊎◌, inl, inr, refl, sym, ap, Bool, true, false, none, some,
  arith, ltb,
}
use os_exercises.SkewHeap.{Heap, leaf, node, mem, insert}
use os_exercises.SkewHeap.Agree.{Within, Within-mono, Within-merge, merge-agree}
use os_exercises.SkewHeap.Members.{count, count-merge}
use os_exercises.SkewHeap.Order.{Bounds, IsHeap, merge-IsHeap, root_least}
use os_exercises.Stride.{Share, Queue, big_stride, less, pick, stride_pick_next, stride_enqueue}
use os_exercises.Stride.Compare.{stride_less-ltb}

-- The order of the unbounded strides.
abbrev pub before : (ℕ → ℕ) → ℕ → ℕ → Bool
before V a b = ltb (V a) (V b)

-- The process `a` keeps the low 32 bits of its stride `V a`, which lies in the window at `lo`.
abbrev pub InWindow : (ℕ → ℕ) → ℕ → (ℕ → Share) → ℕ → Type 0
InWindow V lo share a = ((share a).stride ≡ V a % 2 ^ 32) × (lo ≤ V a) × (V a ≤ lo + big_stride)

-- The run pool in terms of the unbounded strides `V`.
pub record IsValid (V : ℕ → ℕ) (lo : ℕ) (rq : Queue) : Type 0 where
  pub heap : IsHeap (before V) rq.pool
  pub once : (a : ℕ) → count a rq.pool ≤ 1
  pub window : Within (InWindow V lo rq.share) rq.pool

pub before_asym : (V : ℕ → ℕ) (x y : ℕ) → before V x y ≡ true → before V y x ≡ false
before_asym V x y h = ground arith

before_trans :
    (V : ℕ → ℕ) (x y z : ℕ) → before V y x ≡ false → before V z y ≡ false → before V z x ≡ false
before_trans V x y z h k = ground arith

pub less-before :
    (V : ℕ → ℕ) (lo : ℕ) (share : ℕ → Share) (a b : ℕ)
    → InWindow V lo share a
    → InWindow V lo share b
    → less share a b ≡ before V a b
less-before V lo share a b w v =
    rw (w.0, v.0) (stride_less-ltb (V a) (V b) (omega arith) (omega arith))

pub pick-least :
    (V : ℕ → ℕ) (rq : Queue) (h : Heap) (p q : ℕ)
    → IsHeap (before V) h
    → (pick rq h).0 ≡ some p
    → mem q h ≡ true
    → V p ≤ V q
pick-least V rq leaf p q i e m = cc
pick-least V rq (node l x r) p q i e m =
    let same : x ≡ p = cc e in
    let least = root_least (before V) (before_trans V) q x (node l x r) (ground arith) i m in
    ground arith

-- The run pool as the code sees it: a heap by the comparison of the 32-bit strides. The unbounded
-- strides lie in a window.
pub record IsPool (V : ℕ → ℕ) (lo : ℕ) (rq : Queue) : Type 0 where
  pub heap : IsHeap (less rq.share) rq.pool
  pub window : Within (InWindow V lo rq.share) rq.pool

less-IsHeap :
    (V : ℕ → ℕ) (lo : ℕ) (share : ℕ → Share) (h : Heap)
    → Within (InWindow V lo share) h
    → IsHeap (less share) h
    → IsHeap (before V) h
less-IsHeap V lo share leaf w i = tt
less-IsHeap V lo share (node l x r) w i = (
  above l w.1 i.0,
  above r w.2 i.1,
  less-IsHeap V lo share l w.1 i.2,
  less-IsHeap V lo share r w.2 i.3,
)
  where
    above :
        (k : Heap)
        → Within (InWindow V lo share) k
        → Bounds (less share) x k
        → Bounds (before V) x k
    above leaf v b = tt
    above (node l' y r') v b = sym (less-before V lo share y x v.0 w.0) ∙ b

-- Where the run pool is a heap by the 32-bit comparison of the code, and keeps the low 32 bits of
-- unbounded strides that lie within BIG_STRIDE of one another, `stride_pick_next` picks a process of
-- the pool unless the pool is empty, and no process of the pool has a smaller unbounded stride.
pub stride_pick_next-least :
    {V : ℕ → ℕ} {lo : ℕ} {rq : Queue}
    → IsPool V lo rq
    → (((stride_pick_next rq).0 ≡ none) × (rq.pool ≡ leaf))
      ⊎ ((p : ℕ) × ((stride_pick_next rq).0 ≡ some p)
          × (mem p rq.pool ≡ true)
          × ((q : ℕ) → mem q rq.pool ≡ true → V p ≤ V q))
unfolding stride_pick_next
stride_pick_next-least {V} {lo} {rq} v =
    by_pool rq.pool refl (less-IsHeap V lo rq.share rq.pool v.window v.heap)
  where
    by_pool :
        (h : Heap)
        → rq.pool ≡ h
        → IsHeap (before V) rq.pool
        → (((stride_pick_next rq).0 ≡ none) × (rq.pool ≡ leaf))
          ⊎ ((p : ℕ) × ((stride_pick_next rq).0 ≡ some p)
              × (mem p rq.pool ≡ true)
              × ((q : ℕ) → mem q rq.pool ≡ true → V p ≤ V q))
    by_pool leaf e i = inl (ap (λ h. (pick rq h).0) e, e)
    by_pool (node l p r) e i =
        let run = ap (λ h. (pick rq h).0) e in
        inr (p, run, ap (mem p) e ∙ ground arith, λ q m. pick-least V rq rq.pool p q i run m)

stride-enqueue :
    (rq : Queue) (p a : ℕ) → ((stride_enqueue rq p).share a).stride ≡ (rq.share a).stride
unfolding stride_enqueue
stride-enqueue rq p a = ground arith

-- A process that is not in the run pool and has its stride in the window can be put in.
pub stride_enqueue-IsValid :
    {V : ℕ → ℕ} {lo : ℕ} {rq : Queue} (p : ℕ)
    → IsValid V lo rq
    → count p rq.pool ≡ 0
    → InWindow V lo rq.share p
    → IsValid V lo (stride_enqueue rq p)
stride_enqueue-IsValid {V} {lo} {rq} p v new w =
    let single : Heap = node leaf p leaf in
    let P = InWindow V lo rq.share in
    let agree =
      merge-agree P (less rq.share) (before V) rq.pool single (less-before V lo rq.share) v.window
        (w, tt, tt) in
    let merged = merge-IsHeap (before V) (before_asym V) rq.pool single v.heap (tt, tt, tt, tt) in
    let inside = Within-merge P (less rq.share) rq.pool single v.window (w, tt, tt) in
    unfold insert stride_enqueue in
    record {
      heap = rw agree merged;
      once = λ a. ground (arith, count-merge (less rq.share) a rq.pool single, v.once a);
      window =
          Within-mono P (InWindow V lo (stride_enqueue rq p).share) _
            (λ a m x. (stride-enqueue rq p a ∙ x.0, x.1, x.2)) inside;
    }
