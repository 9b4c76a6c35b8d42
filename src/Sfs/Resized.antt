-- ===== src/Sfs/Resized.antt =====
-- The two loops of `sfs_truncfile`.
use os_exercises.Base.{
  ℕ, zero, suc, ◌+◌, ◌≤◌, ◌<◌, ◌≡◌, refl, sym, ap, ◌∙◌, inl, inr, none, some, arith, done, Error,
}
use os_exercises.Sfs.{Sfs, DiskInode, Device, Result, ndirect, blk_nentry, sfs_bmap_load_nolock}
use os_exercises.Sfs.Blocks.{IsSound}
use os_exercises.Sfs.Keeps.{Keeps}
use os_exercises.Sfs.Get.{block_of, IsMapped}
use os_exercises.Sfs.Owned.{IsOwned}
use os_exercises.Sfs.Load.{IsFilled, LoadEnds, sfs_bmap_load_nolock-LoadEnds}
use os_exercises.Sfs.Shrink.{Ended, sfs_bmap_truncate_nolock}
use os_exercises.Sfs.Truncate.{TruncateEnds, sfs_bmap_truncate_nolock-TruncateEnds}
use os_exercises.Sfs.Resize.{grow, shrink}

-- The disk and the file are well formed.
pub record IsFile (din : DiskInode) (s : Sfs) : Type 0 where
  pub sound : IsSound s
  pub filled : IsFilled din s
  pub owned : IsOwned din s

-- A well-formed file whose first `n` blocks are as before.
pub record Near (n : ℕ) (din : DiskInode) (s : Sfs) (din' : DiskInode) (s' : Sfs) : Type 0 where
  pub well : IsFile din' s'
  pub size : din'.size ≡ din.size
  pub others : (j : ℕ) → j < n → block_of din' s' j ≡ block_of din s j

pub Near-refl : (n : ℕ) (din : DiskInode) (s : Sfs) → IsFile din s → Near n din s din s
Near-refl n din s w = record { well = w; size = refl; others = λ j l. refl }

Near-trans :
    (n m : ℕ) (din : DiskInode) (s : Sfs) (din1 : DiskInode) (s1 : Sfs) (din2 : DiskInode)
    (s2 : Sfs)
    → n ≤ m
    → Near n din s din1 s1
    → Near m din1 s1 din2 s2
    → Near n din s din2 s2
Near-trans n m din s din1 s1 din2 s2 le a b = record {
  well = b.well;
  size = b.size ∙ a.size;
  others = λ j l. b.others j (omega (arith, l, le)) ∙ a.others j l;
}

-- A state that keeps the blocks in use, and the file's.
Keeps-IsFile :
    (din : DiskInode) (s s' : Sfs)
    → IsFile din s
    → Keeps s s'
    → ((j : ℕ) → block_of din s' j ≡ block_of din s j)
    → IsFile din s'
Keeps-IsFile din s s' w k same =
    let mapped : IsMapped din s' = record {
      entry = elim w.filled.mapped.entry [ inl z ↦ inl z | inr u ↦ inr (k.inuse din.indirect u) ];
      mapped = λ j l. elim (w.filled.mapped.mapped j l) [
        | inl z ↦ inl (same j ∙ z)
        | inr u ↦ inr (rw (same j) (k.inuse (block_of din s j) u))
      ];
    } in
    record {
      sound = k.sound;
      filled = record {
        mapped = mapped;
        filled = λ j l z. w.filled.filled j l (sym (same j) ∙ z);
        bound = w.filled.bound;
      };
      owned = record {
        mapped = mapped;
        distinct = λ i j l l' ne nz e.
            w.owned.distinct i j l l' ne (λ z. nz (same i ∙ z)) (sym (same j) ∙ e ∙ same i);
        apart = λ i l nz e. w.owned.apart i l (λ z. nz (same i ∙ z)) (e ∙ same i);
      };
    }

-- A failed loop has changed the number of blocks at most; one that succeeds ends at `m`.
abbrev pub LoopEnds : ℕ → ℕ → DiskInode → Sfs → Ended → Type 0
LoopEnds n m din s ((din', s'), none) = Near n din s din' s' × (din'.blocks ≡ m)
LoopEnds n m din s ((din', s'), some e) = Near n din s din' s'

after_LoopEnds :
    (n k m : ℕ) (din : DiskInode) (s : Sfs) (din1 : DiskInode) (s1 : Sfs) (r : Ended)
    → n ≤ k
    → Near n din s din1 s1
    → LoopEnds k m din1 s1 r
    → LoopEnds n m din s r
after_LoopEnds n k m din s din1 s1 ((din', s'), none) le a (b, count) =
    (Near-trans n k din s din1 s1 din' s' le a b, count)
after_LoopEnds n k m din s din1 s1 ((din', s'), some e) le a b =
    Near-trans n k din s din1 s1 din' s' le a b

LoadEnds-fails :
    (index : ℕ) (din : DiskInode) (s : Sfs) (din' : DiskInode) (s' : Sfs) (e : Error) (n : ℕ)
    → IsFile din s
    → LoadEnds index din s ((din', s'), inl e)
    → Near n din s din' s'
LoadEnds-fails index din s din' s' e n w (same, k, blocks) =
    let blocks' : (j : ℕ) → block_of din s' j ≡ block_of din s j =
      λ j. ap (λ x. block_of x s' j) (sym same) ∙ blocks j in
    let there : Near n din s din s' = record {
      well = Keeps-IsFile din s s' w k blocks';
      size = refl;
      others = λ j l. blocks' j;
    } in
    rw same there

-- One round of the first loop, given what the later ones do.
grow_step :
    (d : Device) (n : ℕ) (din : DiskInode) (s : Sfs)
    → IsFile din s
    → ((din' : DiskInode) (s' : Sfs)
        → IsFile din' s'
        → din'.blocks ≡ din.blocks + 1
        → (q : Ended) × (grow d n din'.blocks din' s' ≡ done q)
          × LoopEnds din'.blocks (n + din'.blocks) din' s' q)
    → (r : Result) → sfs_bmap_load_nolock d din.blocks din s ≡ done r
    → LoadEnds din.blocks din s r
    → (q : Ended) × (grow d (suc n) din.blocks din s ≡ done q)
      × LoopEnds din.blocks (suc n + din.blocks) din s q
unfolding grow
grow_step d n din s w again ((din', s'), inl e) run ends = (
  ((din', s'), some e),
  rw (grow, run) refl,
  LoadEnds-fails din.blocks din s din' s' e din.blocks w ends,
)
grow_step d n din s w again ((din', s'), inr ino) run l =
    let count : din'.blocks ≡ din.blocks + 1 = l.blocks ∙ ground arith in
    let w' : IsFile din' s' = record { sound = l.sound; filled = l.filled; owned = l.owned } in
    let (q, run2, ends) = again din' s' w' count in
    let at : grow d n (din.blocks + 1) din' s' ≡ done q =
      ap (λ k. grow d n k din' s') (sym count) ∙ run2 in
    let target : n + din'.blocks ≡ suc n + din.blocks = omega (arith, count) in
    let near : Near din.blocks din s din' s' = record {
      well = w';
      size = l.size;
      others = l.others;
    } in
    (
      q,
      rw (grow, run) at,
      after_LoopEnds din.blocks din'.blocks (suc n + din.blocks) din s din' s' q
          (omega (arith, count)) near (rw target at ends),
    )

pub grow-LoopEnds :
    (d : Device) (n : ℕ) (din : DiskInode) (s : Sfs)
    → IsFile din s
    → n + din.blocks ≤ ndirect + blk_nentry
    → (r : Ended) × (grow d n din.blocks din s ≡ done r)
      × LoopEnds din.blocks (n + din.blocks) din s r
unfolding grow
grow-LoopEnds d zero din s w le =
    (((din, s), none), refl, (Near-refl din.blocks din s w, omega arith))
grow-LoopEnds d (suc n) din s w le =
    let (r, run, ends) =
      sfs_bmap_load_nolock-LoadEnds d din.blocks din s w.sound w.filled w.owned (omega arith)
        (omega (arith, le)) in
    grow_step d n din s w
      (λ din' s' w' count. grow-LoopEnds d n din' s' w' (omega (arith, count, le))) r run ends

-- One round of the second loop.
shrink_step :
    (d : Device) (n m : ℕ) (din : DiskInode) (s : Sfs)
    → IsFile din s
    → din.blocks ≡ suc n + m
    → ((din' : DiskInode) (s' : Sfs)
        → IsFile din' s'
        → din'.blocks ≡ n + m
        → (q : Ended) × (shrink d n din' s' ≡ done q) × LoopEnds m m din' s' q)
    → (r : Ended) → sfs_bmap_truncate_nolock d din s ≡ done r
    → TruncateEnds din s r
    → (q : Ended) × (shrink d (suc n) din s ≡ done q) × LoopEnds m m din s q
unfolding shrink
shrink_step d n m din s w count again ((din', s'), some e) run (same, same') =
    (((din', s'), some e), rw (shrink, run) refl, rw (same, same') (Near-refl m din s w))
shrink_step d n m din s w count again ((din', s'), none) run l =
    let w' : IsFile din' s' = record { sound = l.sound; filled = l.filled; owned = l.owned } in
    let left : din'.blocks ≡ n + m = omega (arith, l.blocks, count) in
    let (q, run2, ends) = again din' s' w' left in
    let near : Near m din s din' s' = record {
      well = w';
      size = l.size;
      others = λ j lt. l.others j (omega (arith, lt, left));
    } in
    (q, rw (shrink, run) run2, after_LoopEnds m m m din s din' s' q (omega arith) near ends)

pub shrink-LoopEnds :
    (d : Device) (n m : ℕ) (din : DiskInode) (s : Sfs)
    → IsFile din s
    → din.blocks ≡ n + m
    → (r : Ended) × (shrink d n din s ≡ done r) × LoopEnds m m din s r
unfolding shrink
shrink-LoopEnds d zero m din s w count =
    (((din, s), none), refl, (Near-refl m din s w, omega (arith, count)))
shrink-LoopEnds d (suc n) m din s w count =
    let (r, run, ends) =
      sfs_bmap_truncate_nolock-TruncateEnds d din s w.sound w.filled w.owned
        (omega (arith, count)) in
    shrink_step d n m din s w count (λ din' s' w' count'. shrink-LoopEnds d n m din' s' w' count') r
      run ends
