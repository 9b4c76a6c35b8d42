-- ===== src/Pmm/Init.antt =====
-- `default_init` and `default_init_memmap`: a region of reserved pages becomes one block.
use mathlib.Core.List.{append_assoc, append-nil}
use os_exercises.Base.{
  ℕ, zero, suc, ◌+◌, ◌≤◌, ◌<◌, ◌≡◌, ◌⊎◌, inl, refl, sym, ap, ◌∙◌, true, List, [], ◌∷◌, ◌++◌, arith,
  All, done, length-append,
}
use os_exercises.Pmm.{Frames, update, Area, range, fresh_page, init, init_loop, init_memmap}
use os_exercises.Pmm.Blocks.{
  Block, block, expand, Gapped, Zeros, Zeros-range, Holds, Repr, length-range,
}
use os_exercises.Pmm.Merge.{Holds-before}

wipe : ℕ → ℕ → Frames → Frames
wipe zero p fr = fr
wipe (suc n) p fr = wipe n (p + 1) (update fr p fresh_page)

wipe_outside : (n p : ℕ) (fr : Frames) (q : ℕ) → (q < p) ⊎ (p + n ≤ q) → wipe n p fr q ≡ fr q
unfolding wipe
wipe_outside zero p fr q h = refl
wipe_outside (suc n) p fr q h = ground (arith, wipe_outside n (p + 1) (update fr p fresh_page) q)

Zeros-wipe : (n p : ℕ) (fr : Frames) → Zeros (wipe n p fr) (range p n)
unfolding wipe
Zeros-wipe zero p fr = tt
Zeros-wipe (suc n) p fr =
    let first = wipe_outside n (p + 1) (update fr p fresh_page) p (inl (omega arith)) in
    (ground arith, Zeros-wipe n (p + 1) (update fr p fresh_page))

init_loop-wipe :
    (n p : ℕ) (fr : Frames) (l : List ℕ)
    → ((q : ℕ) → p ≤ q → q < p + n → (fr q).reserved ≡ true)
    → init_loop n p fr l ≡ done (wipe n p fr, l ++ range p n)
unfolding init_loop wipe
init_loop-wipe zero p fr l h = rw append-nil refl
init_loop-wipe (suc n) p fr l h =
    let next =
      init_loop-wipe n (p + 1) (update fr p fresh_page) (l ++ (p ∷ []))
        (λ q le lt. ground (arith, h q)) in
    ground (arith, h p, next, append_assoc l (p ∷ []) (range (p + 1) n))

expand-append : (bs cs : List Block) → expand (bs ++ cs) ≡ expand bs ++ expand cs
expand-append [] cs = refl
expand-append (b ∷ bs) cs =
    ap (λ l. range b.start (suc b.more) ++ l) (expand-append bs cs)
    ∙ sym (append_assoc (range b.start (suc b.more)) (expand bs) (expand cs))

Gapped-snoc :
    (lo base m : ℕ) (bs : List Block)
    → lo ≤ base
    → Gapped lo bs
    → All (λ b. b.start + b.more + 1 < base) bs
    → Gapped lo (bs ++ (block base m ∷ []))
Gapped-snoc lo base m [] le g a = (le, tt)
Gapped-snoc lo base m (b ∷ bs) le g a =
    (g.0, Gapped-snoc (b.start + b.more + 2) base m bs (omega arith) g.1 a.1)

Holds-append : (fr : Frames) (bs cs : List Block) → Holds fr bs → Holds fr cs → Holds fr (bs ++ cs)
Holds-append fr [] cs k k' = k'
Holds-append fr (b ∷ bs) cs k k' = (k.0, k.1, Holds-append fr bs cs k.2 k')

All-before :
    (base : ℕ) (bs : List Block)
    → All (λ b. b.start + b.more + 1 < base) bs
    → All (λ b. b.start + b.more < base) bs
All-before base [] a = tt
All-before base (b ∷ bs) a = (omega arith, All-before base bs a.1)

-- The allocator starts with no block.
pub init-Repr : (fr : Frames) → Repr (init fr) []
unfolding init
init-Repr fr = record { pages = refl; order = tt; heads = tt; count = refl }

-- A region of `suc m` reserved pages behind the blocks, with a page between, becomes the last block;
-- every page of it is free then, and its descriptor is as in a fresh block.
pub init_memmap-Repr :
    {a : Area} {bs : List Block} (base m : ℕ)
    → Repr a bs
    → All (λ b. b.start + b.more + 1 < base) bs
    → ((p : ℕ) → base ≤ p → p < base + suc m → (a.frames p).reserved ≡ true)
    → (a' : Area) × (init_memmap base (suc m) a ≡ done a') × Repr a' (bs ++ (block base m ∷ []))
unfolding init_memmap
init_memmap-Repr {a} {bs} base m r before held =
    let fr = wipe (suc m) base a.frames in
    let a' : Area = record {
      frames = update fr base (record (fr base) { property = suc m });
      free_list = a.free_list ++ range base (suc m);
      nr_free = a.nr_free + suc m;
    } in
    let zeros = Zeros-wipe (suc m) base a.frames in
    let same = λ (p : ℕ) (lt : p < base). wipe_outside (suc m) base a.frames p (inl lt) in
    (
      a',
      ground (arith, init_loop-wipe (suc m) base a.frames a.free_list held),
      record {
        pages =
            ap (λ l. l ++ range base (suc m)) r.pages
            ∙ (ap (λ l. expand bs ++ l) (sym (append-nil (range base (suc m))))
                ∙ sym (expand-append bs (block base m ∷ [])));
        order = Gapped-snoc 0 base m bs (omega arith) r.order before;
        heads =
            Holds-append a'.frames bs (block base m ∷ [])
              (Holds-before base a.frames a'.frames bs (All-before base bs before)
                (λ p lt. ground (arith, same p)) r.heads)
              (
                ground arith,
                Zeros-range fr a'.frames (base + 1) m (λ p le lt. ground arith) zeros.1,
                tt,
              );
        count =
            rw (expand-append bs (block base m ∷ []), append-nil)
              (omega (
                arith,
                r.count,
                length-append (expand bs) (range base (suc m)),
                length-range base (suc m),
              ));
      },
    )
