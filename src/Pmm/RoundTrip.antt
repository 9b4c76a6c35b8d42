-- ===== src/Pmm/RoundTrip.antt =====
-- Pages that are allocated and returned at once leave the free list as it was.
use os_exercises.Base.{
  ℕ, suc, ◌+◌, ◌-◌, ◌≤◌, ◌<◌, ◌≡◌, refl, sym, ap, ◌∙◌, some, List, [], ◌∷◌, arith, inl, inr, done,
}
use mathlib.Core.Path.{subst}
use os_exercises.Pmm.{Area, alloc_pages, free_pages}
use os_exercises.Pmm.Blocks.{Block, block, Gapped, Gapped-mono, Repr, first_fit}
use os_exercises.Pmm.Release.{split_blocks, join_right, attach, release, Clear}
use os_exercises.Pmm.Alloc.{alloc_pages_lem, first_fit-cases}
use os_exercises.Pmm.Free.{free_pages-release}

split_blocks-behind :
    (base : ℕ) (bs : List Block) → Gapped (base + 1) bs → split_blocks base bs ≡ ([], bs)
unfolding split_blocks
split_blocks-behind base [] g = refl
split_blocks-behind base (b ∷ bs) g = ground arith

Clear-behind : (base n lo : ℕ) (bs : List Block) → base + n ≤ lo → Gapped lo bs → Clear base n bs
Clear-behind base n lo [] h g = tt
Clear-behind base n lo (b ∷ bs) h g =
    (inr (omega arith), Clear-behind base n (b.start + b.more + 2) bs (omega arith) g.1)

attach-apart :
    (base : ℕ) (b : Block) (pre cs : List Block)
    → b.start + b.more + 1 < base
    → attach base (b ∷ pre) cs ≡ b ∷ attach base pre cs
attach-apart base b [] cs h = ground arith
attach-apart base b (d ∷ bs) cs h = refl

-- What first fit took, and what its return does.
record Restores (n lo p : ℕ) (bs rest : List Block) : Type 0 where
  above : lo ≤ p
  clear : Clear p n rest
  back : release p (n - 1) rest ≡ bs

module _ (n lo : ℕ) (b : Block) (bs : List Block) (pos : 0 < n) (g : Gapped lo (b ∷ bs)) where
  whole-Restores : n ≡ suc b.more → Restores n lo b.start (b ∷ bs) bs
  whole-Restores e = record {
    above = g.0;
    clear = Clear-behind b.start n (b.start + b.more + 2) bs (omega arith) g.1;
    back =
        unfold release in
        rw
          (split_blocks-behind b.start bs
            (Gapped-mono (b.start + b.more + 2) _ bs (omega arith) g.1))
          (apart bs g.1);
  }
    where
      size : n - 1 ≡ b.more
      size = omega arith

      apart :
          (cs : List Block)
          → Gapped (b.start + b.more + 2) cs
          → attach b.start [] (join_right b.start (n - 1) cs) ≡ b ∷ cs
      apart [] h = ground arith
      apart (c ∷ cs) h = ground arith

  split-Restores :
      n < suc b.more → Restores n lo b.start (b ∷ bs) (block (b.start + n) (b.more - n) ∷ bs)
  split-Restores e =
      let behind =
        Gapped-mono (b.start + b.more + 2) (b.start + n + (b.more - n) + 2) bs (omega arith) g.1 in
      record {
        above = g.0;
        clear =
            (inr (omega arith), Clear-behind b.start n (b.start + b.more + 2) bs (omega arith) g.1);
        back =
            unfold release in
            rw
              (split_blocks-behind b.start (block (b.start + n) (b.more - n) ∷ bs)
                (omega arith, behind))
              (ground arith);
      }

  later-Restores :
      {p : ℕ} {rest : List Block}
      → Restores n (b.start + b.more + 2) p bs rest
      → Restores n lo p (b ∷ bs) (b ∷ rest)
  later-Restores {p} {rest} r =
      let above = r.above in
      record {
        above = omega arith;
        clear = (inl (omega arith), r.clear);
        back = passes ∙ ap (λ l. b ∷ l) r.back;
      }
    where
      passes : release p (n - 1) (b ∷ rest) ≡ b ∷ release p (n - 1) rest
      passes =
          unfold release split_blocks in
          ground (
            arith,
            r.above,
            attach-apart p b (split_blocks p rest).0 (join_right p (n - 1) (split_blocks p rest).1),
          )

first_fit-Restores :
    (n lo : ℕ) (bs : List Block) (p : ℕ)
    → 0 < n
    → Gapped lo bs
    → (first_fit n bs).0 ≡ some p
    → Restores n lo p bs (first_fit n bs).1
first_fit-Restores n lo [] p pos g e = unfold first_fit in cc
first_fit-Restores n lo (b ∷ bs) p pos g e = elim (first_fit-cases n b bs) [
  | inl (size, out) ↦
      let at : b.start ≡ p = ground arith in
      rw out (subst (λ q. Restores n lo q (b ∷ bs) bs) at (whole-Restores n lo b bs pos g size))
  | inr (inl (size, out)) ↦
      let at : b.start ≡ p = ground arith in
      rw out (
        subst (λ q. Restores n lo q (b ∷ bs) (block (b.start + n) (b.more - n) ∷ bs)) at
          (split-Restores n lo b bs pos g size))
  | inr (inr (size, out)) ↦
      let later = first_fit-Restores n (b.start + b.more + 2) bs p pos g.1 (ground arith) in
      rw out (later-Restores n lo b bs pos g later)
]

-- On a free list in order where `p` is the first fit for at least one page, the allocation gives
-- `p`, and the return of the same pages restores the free list: the same blocks are free, in the
-- same order and with the same sizes.
pub free_pages-alloc_pages :
    {a : Area} {bs : List Block} (n p : ℕ)
    → 0 < n
    → Repr a bs
    → (first_fit n bs).0 ≡ some p
    → (a' a'' : Area) × (alloc_pages n a ≡ done (some p, a'))
      × (free_pages p n a' ≡ done a'')
      × Repr a'' bs
free_pages-alloc_pages {a} {bs} n p pos r e =
    let (a', run, r', granted) = alloc_pages_lem n pos r in
    let got = granted p e in
    let back = first_fit-Restores n 0 bs p pos r.order e in
    let size : suc (n - 1) ≡ n = omega arith in
    let clear = subst (λ k. Clear p k (first_fit n bs).1) (sym size) back.clear in
    let (a'', run', r'') = free_pages-release p (n - 1) r' clear got.held got.inner in
    (a', a'', rw e at run, rw size at run', rw back.back at r'')
