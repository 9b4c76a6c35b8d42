-- ===== src/Pmm/Alloc.antt =====
-- `default_alloc_pages` is first fit on the blocks.
use os_exercises.Base.{
  ℕ, zero, suc, ◌+◌, ◌-◌, ◌≤◌, ◌<◌, ◌≡◌, ◌≢◌, refl, ◌∙◌, true, Option, none, some, List, [], ◌∷◌,
  ◌++◌, ◌⊎◌, inl, inr, arith, length, length-append, Bool-cases, done, ltb,
}
use mathlib.Core.Path.{subst}
use os_exercises.Pmm.{
  Frames, update, Area, range, claimed, take_pages, split_block, alloc_walk, alloc_pages, taken,
}
use os_exercises.Pmm.Blocks.{
  Block, block, expand, Gapped, Zeros, Holds, Repr, first_fit, length-range, Zeros-range,
  Holds-same, Gapped-mono, Zeros-drop, Zeros-take,
}

claim : ℕ → ℕ → Frames → Frames
claim zero s fr = fr
claim (suc n) s fr = claim n (s + 1) (update fr s (claimed (fr s)))

property-claim : (n s : ℕ) (fr : Frames) (p : ℕ) → (claim n s fr p).property ≡ (fr p).property
unfolding claim
property-claim zero s fr p = refl
property-claim (suc n) s fr p =
    ground (arith, property-claim n (s + 1) (update fr s (claimed (fr s))) p)

take_pages-range :
    (n m s : ℕ) (fr : Frames) (rest : List ℕ)
    → n ≤ m
    → take_pages n fr (range s m ++ rest) ≡ done (claim n s fr, range (s + n) (m - n) ++ rest)
unfolding claim take_pages
take_pages-range zero m s fr rest h = ground arith
take_pages-range (suc n) zero s fr rest h = absurd (omega arith)
take_pages-range (suc n) (suc m) s fr rest h =
    ground (arith, take_pages-range n m (s + 1) (update fr s (claimed (fr s))) rest)

-- Pages inside a block are passed by.
alloc_walk-skip :
    (n : ℕ) (fr : Frames) (l rest : List ℕ) {r : Option ℕ} {fr' : Frames} {l' : List ℕ}
    → 0 < n
    → Zeros fr l
    → alloc_walk n fr rest ≡ done (r, fr', l')
    → alloc_walk n fr (l ++ rest) ≡ done (r, fr', l ++ l')
unfolding alloc_walk
alloc_walk-skip n fr [] rest pos z h = h
alloc_walk-skip n fr (p ∷ l) rest pos z h = ground (arith, alloc_walk-skip n fr l rest pos z.1 h)

-- The pages that a caller gets: the first is reserved, and no other heads a block.
pub record Granted (fr : Frames) (p n : ℕ) : Type 0 where
  pub held : (fr p).reserved ≡ true
  pub inner : Zeros fr (range (p + 1) (n - 1))

-- A walk over the blocks `bs` from `lo` on that gives `out.0` and leaves the blocks `out.1`.
record Allocated (n lo : ℕ) (fr : Frames) (bs : List Block) (out : Option ℕ × List Block)
    (fr' : Frames) : Type 0 where
  walk : alloc_walk n fr (expand bs) ≡ done (out.0, fr', expand out.1)
  heads : Holds fr' out.1
  order : Gapped lo out.1
  below : (p : ℕ) → p < lo → (fr' p).property ≡ (fr p).property
  granted : (p : ℕ) → out.0 ≡ some p → Granted fr' p n

split_block-whole :
    (p n : ℕ) (fr : Frames) (l : List ℕ) → (fr p).property ≡ n → split_block p n fr l ≡ done fr
split_block-whole p n fr [] e = ground arith
split_block-whole p n fr (q ∷ l) e = ground arith

module _ (n lo : ℕ) (fr : Frames) (b : Block) (bs : List Block) (pos : 0 < n)
    (o : Gapped lo (b ∷ bs)) (k : Holds fr (b ∷ bs)) where
  abbrev claimed_frames : Frames
  claimed_frames = claim n b.start fr

  abbrev whole_frames : Frames
  whole_frames = update claimed_frames b.start (claimed (claimed_frames b.start))

  property-whole : (p : ℕ) → (whole_frames p).property ≡ (fr p).property
  property-whole p =
      ground (arith, property-claim n b.start fr p, property-claim n b.start fr b.start)

  -- The block is used up.
  alloc-whole : n ≡ suc b.more → Allocated n lo fr (b ∷ bs) (some b.start, bs) whole_frames
  unfolding alloc_walk
  alloc-whole e =
      let taken = take_pages-range n (suc b.more) b.start fr (expand bs) (omega arith) in
      let left : suc b.more - n ≡ 0 = omega arith in
      let size : b.more ≡ n - 1 = omega arith in
      let same = property-claim n b.start fr b.start in
      record {
        walk = ground (arith, taken, same, split_block-whole b.start n claimed_frames (expand bs));
        heads =
            Holds-same (b.start + b.more + 2) fr whole_frames bs (λ p h. property-whole p) o.1 k.2;
        order = Gapped-mono (b.start + b.more + 2) lo bs (omega arith) o.1;
        below = λ p h. property-whole p;
        granted = λ p q.
            let at : b.start ≡ p = cc q in
            subst (λ p. Granted whole_frames p n) at
              (record {
                held = ground arith;
                inner =
                    Zeros-range fr whole_frames (b.start + 1) (n - 1) (λ p le lt. property-whole p)
                      (subst (λ j. Zeros fr (range (b.start + 1) j)) size k.1);
              });
      }

  abbrev remainder : Block
  remainder = block (b.start + n) (b.more - n)

  abbrev split_frames : Frames
  split_frames =
      update claimed_frames remainder.start
        (record (claimed_frames remainder.start) { property = suc remainder.more })

  abbrev rest_frames : Frames
  rest_frames = update split_frames b.start (claimed (split_frames b.start))

  property-rest : (p : ℕ) → p ≢ remainder.start → (rest_frames p).property ≡ (fr p).property
  property-rest p ne =
      ground (arith, property-claim n b.start fr p, property-claim n b.start fr b.start)

  property-remainder : (rest_frames remainder.start).property ≡ suc remainder.more
  property-remainder = ground arith

  -- The block is split.
  alloc-split :
      n < suc b.more → Allocated n lo fr (b ∷ bs) (some b.start, remainder ∷ bs) rest_frames
  unfolding alloc_walk
  alloc-split e =
      let taken = take_pages-range n (suc b.more) b.start fr (expand bs) (omega arith) in
      let left : suc b.more - n ≡ suc remainder.more = omega arith in
      let same = property-claim n b.start fr b.start in
      let inside =
        Zeros-range fr rest_frames (remainder.start + 1) remainder.more
          (λ p h lt. property-rest p (omega arith))
          (Zeros-drop fr n (b.start + 1) b.more (remainder.start + 1) (omega arith) k.1) in
      let size : (fr b.start).property - n ≡ suc remainder.more = omega arith in
      record {
        walk = ground (arith, taken, same);
        heads = (
          property-remainder,
          inside,
          Holds-same (b.start + b.more + 2) fr rest_frames bs (λ p h. property-rest p (omega arith))
              o.1 k.2,
        );
        order = (omega arith, Gapped-mono (b.start + b.more + 2) _ bs (omega arith) o.1);
        below = λ p h. property-rest p (omega arith);
        granted = λ p q.
            let at : b.start ≡ p = cc q in
            subst (λ p. Granted rest_frames p n) at
              (record {
                held = ground arith;
                inner =
                    Zeros-range fr rest_frames (b.start + 1) (n - 1)
                      (λ p le lt. property-rest p (omega arith))
                      (Zeros-take fr (b.start + 1) (n - 1) b.more (omega arith) k.1);
              });
      }

  -- The block is passed by.
  alloc-later :
      {out : Option ℕ × List Block} {fr' : Frames}
      → suc b.more < n
      → Allocated n (b.start + b.more + 2) fr bs out fr'
      → Allocated n lo fr (b ∷ bs) (out.0, b ∷ out.1) fr'
  unfolding alloc_walk
  alloc-later {out} {fr'} small later =
      let inner =
        alloc_walk-skip n fr (range (b.start + 1) b.more) (expand bs) pos k.1 later.walk in
      record {
        walk = ground (arith, inner);
        heads = (
          ground (arith, later.below b.start),
          Zeros-range fr fr' (b.start + 1) b.more (λ p le lt. later.below p (omega arith)) k.1,
          later.heads,
        );
        order = (o.0, later.order);
        below = λ p h. later.below p (omega arith);
        granted = later.granted;
      }

pub first_fit-cases :
    (n : ℕ) (b : Block) (bs : List Block)
    → ((n ≡ suc b.more) × (first_fit n (b ∷ bs) ≡ (some b.start, bs)))
      ⊎ ((n < suc b.more)
          × (first_fit n (b ∷ bs) ≡ (some b.start, block (b.start + n) (b.more - n) ∷ bs)))
      ⊎ ((suc b.more < n) × (first_fit n (b ∷ bs) ≡ ((first_fit n bs).0, b ∷ (first_fit n bs).1)))
unfolding first_fit
first_fit-cases n b bs = ground arith

alloc_walk-Allocated :
    (n lo : ℕ) (fr : Frames) (bs : List Block)
    → 0 < n
    → Gapped lo bs
    → Holds fr bs
    → (fr' : Frames) × Allocated n lo fr bs (first_fit n bs) fr'
alloc_walk-Allocated n lo fr [] pos o k = (fr, none_left)
  where
    none_left : Allocated n lo fr [] (first_fit n []) fr
    none_left = unfold first_fit alloc_walk in ground arith
alloc_walk-Allocated n lo fr (b ∷ bs) pos o k = elim (first_fit-cases n b bs) [
  | inl (e, out) ↦ (whole_frames n lo fr b bs pos o k, rw out (alloc-whole n lo fr b bs pos o k e))
  | inr (inl (e, out)) ↦
      (rest_frames n lo fr b bs pos o k, rw out (alloc-split n lo fr b bs pos o k e))
  | inr (inr (e, out)) ↦
      let (fr', later) = alloc_walk-Allocated n (b.start + b.more + 2) fr bs pos o.1 k.2 in
      (fr', rw out (alloc-later n lo fr b bs pos o k e later))
]

length-expand :
    (b : Block) (bs : List Block) → length (expand (b ∷ bs)) ≡ suc b.more + length (expand bs)
length-expand b bs = omega (
  arith,
  length-append (range (b.start + 1) b.more) (expand bs),
  length-range (b.start + 1) b.more,
)

first_fit-none : (n : ℕ) (bs : List Block) → length (expand bs) < n → first_fit n bs ≡ (none, bs)
unfolding first_fit
first_fit-none n [] h = refl
first_fit-none n (b ∷ bs) h = ground (arith, length-expand b bs, first_fit-none n bs)

abbrev given : Option ℕ → ℕ → ℕ
given none n = 0
given (some p) n = n

taken_of_given : (r : Option ℕ) (n k l : ℕ) → k ≡ given r n + l → taken r n k ≡ l
taken_of_given none n k l h = omega arith
taken_of_given (some p) n k l h = omega arith

length-first_fit :
    (n : ℕ) (bs : List Block)
    → length (expand bs) ≡ given (first_fit n bs).0 n + length (expand (first_fit n bs).1)
length-first_fit n [] = unfold first_fit in refl
length-first_fit n (b ∷ bs) = elim (first_fit-cases n b bs) [
  | inl (e, out) ↦ rw out (omega (arith, length-expand b bs))
  | inr (inl (e, out)) ↦
      rw out
        (omega (arith, length-expand b bs, length-expand (block (b.start + n) (b.more - n)) bs))
  | inr (inr (e, out)) ↦
      rw out (
        omega
          (arith, length-expand b bs, length-expand b (first_fit n bs).1, length-first_fit n bs))
]

-- The run of `default_alloc_pages`, with what a caller gets.
pub alloc_pages_lem :
    {a : Area} {bs : List Block} (n : ℕ)
    → 0 < n
    → Repr a bs
    → (a' : Area) × (alloc_pages n a ≡ done ((first_fit n bs).0, a'))
      × Repr a' (first_fit n bs).1
      × ((p : ℕ) → (first_fit n bs).0 ≡ some p → Granted a'.frames p n)
unfolding alloc_pages
alloc_pages_lem {a} {bs} n pos r = elim (Bool-cases (ltb a.nr_free n)) [
  | inl few ↦
      let none_left = first_fit-none n bs (ground (arith, r.count)) in
      rw none_left (a, ground arith, r, λ p q. cc)
  | inr enough ↦
      let (fr, w) = alloc_walk-Allocated n 0 a.frames bs pos r.order r.heads in
      let a' : Area = record {
        frames = fr;
        free_list = expand (first_fit n bs).1;
        nr_free = taken (first_fit n bs).0 n a.nr_free;
      } in
      (
        a',
        ground (arith, w.walk, r.pages),
        record {
          pages = refl;
          order = w.order;
          heads = w.heads;
          count = taken_of_given (first_fit n bs).0 n _ _ (r.count ∙ length-first_fit n bs);
        },
        w.granted,
      )
]

-- On a free list in order, `default_alloc_pages` of at least one page never stops the kernel or
-- runs off the list: it gives the first page of the first block with at least `n` pages, or NULL if
-- there is none, and what is free afterwards is what first fit leaves, in order, with the sizes at
-- the heads and the count right.
pub alloc_pages-first_fit :
    {a : Area} {bs : List Block} (n : ℕ)
    → 0 < n
    → Repr a bs
    → (a' : Area) × (alloc_pages n a ≡ done ((first_fit n bs).0, a')) × Repr a' (first_fit n bs).1
alloc_pages-first_fit n pos r =
    let (a', run, r', granted) = alloc_pages_lem n pos r in (a', run, r')
