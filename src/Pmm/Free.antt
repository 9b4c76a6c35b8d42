-- ===== src/Pmm/Free.antt =====
-- `default_free_pages` puts a run of pages between its neighbours and joins it with them.
use mathlib.Core.List.{append_assoc, append-nil, reverse-append}
use os_exercises.Base.{
  ℕ, zero, suc, ◌+◌, ◌≤◌, ◌<◌, ◌≡◌, ◌≢◌, refl, sym, ap, ◌∙◌, true, false, List, [], ◌∷◌, ◌++◌,
  reverse, arith, All, ltb, if◌then◌else◌, Bool-cases, inl, inr, done, length, length-append,
}
use os_exercises.Pmm.{
  Page, Frames, update, take_over, Area, range, merge_after, merge_before, free_pages, split_list,
}
use os_exercises.Pmm.Blocks.{
  Block, expand, Gapped, Zeros, Zeros-range, Holds, Holds-same, Repr, length-range,
}
use os_exercises.Pmm.Release.{
  split_blocks, join_right, touches, absorb, attach, release, Clear, StartsAt, split_blocks-Around,
  join_right-StartsAt, join_right-Gapped, join_right-cons, release-Gapped, expand-release,
}
use os_exercises.Pmm.Merge.{
  Zeros-join, Holds-before, property-take_over, Holds-right, merge_after-below, merge_before-block,
}

abbrev final : ℕ → Frames → List Block → Frames
final base fr [] = fr
final base fr (b ∷ []) = if touches b base then take_over b.start base fr else fr
final base fr (b ∷ (d ∷ bs)) = final base fr (d ∷ bs)

-- In the reversed list the last block comes first.
merge_before-final :
    (base : ℕ) (fr : Frames) (pre : List Block) (rest : List ℕ)
    → Holds fr pre
    → pre ≢ []
    → merge_before base fr (reverse (expand pre) ++ rest) ≡ final base fr pre
merge_before-final base fr [] rest k ne = absurd (ne refl)
merge_before-final base fr (b ∷ []) rest k ne =
    rw append-nil (merge_before-block base b.start b.more fr rest k.0 k.1)
merge_before-final base fr (b ∷ (d ∷ bs)) rest k ne =
    let later =
      merge_before-final base fr (d ∷ bs) (reverse (range b.start (suc b.more)) ++ rest) k.2 in
    let shape : reverse (expand (b ∷ (d ∷ bs))) ++ rest
        ≡ reverse (expand (d ∷ bs)) ++ (reverse (range b.start (suc b.more)) ++ rest) =
      ap (λ l. l ++ rest) (reverse-append (range b.start (suc b.more)) (expand (d ∷ bs)))
      ∙ append_assoc (reverse (expand (d ∷ bs))) (reverse (range b.start (suc b.more))) rest in
    ap (merge_before base fr) shape ∙ later (λ e. cc)

record Attached (base lo : ℕ) (fr : Frames) (pre cs : List Block) : Type 0 where
  heads : Holds (final base fr pre) (attach base pre cs)
  below : (p : ℕ) → p < lo → (final base fr pre p).property ≡ (fr p).property

absorb-Holds :
    (base : ℕ) (fr : Frames) (b : Block) (cs : List Block)
    → b.start + b.more < base
    → Holds fr (b ∷ [])
    → Holds fr cs
    → Gapped base cs
    → StartsAt base cs
    → touches b base ≡ true
    → cs ≢ []
    → Holds (take_over b.start base fr) (absorb b cs)
absorb-Holds base fr b [] a k h g s t ne = absurd (ne refl)
absorb-Holds base fr b (c ∷ cs) a k h g s t ne =
    let fr' = take_over b.start base fr in
    let taken = λ (p : ℕ). property-take_over b.start base p fr (omega arith) in
    let inner = Zeros-range fr fr' (b.start + 1) b.more (λ p le lt. ground (arith, taken p)) k.1 in
    let outer = Zeros-range fr fr' (c.start + 1) c.more (λ p le lt. ground (arith, taken p)) h.1 in
    let middle : (fr' c.start).property ≡ 0 = ground (arith, taken c.start) in
    let joint : b.start + 1 + b.more ≡ c.start = ground arith in
    (
      ground (arith, taken b.start),
      Zeros-join fr' (b.start + 1) b.more c.start (suc c.more) joint inner (middle, outer),
      Holds-same (c.start + c.more + 2) fr fr' cs (λ p le. ground (arith, taken p)) g.1 h.2,
    )

final-Attached :
    (base lo : ℕ) (fr : Frames) (pre cs : List Block)
    → All (λ b. b.start + b.more < base) pre
    → Gapped lo pre
    → Holds fr pre
    → Holds fr cs
    → Gapped base cs
    → StartsAt base cs
    → cs ≢ []
    → Attached base lo fr pre cs
final-Attached base lo fr [] cs a o k h g s ne = record { heads = h; below = λ p lt. refl }
final-Attached base lo fr (b ∷ []) cs a o k h g s ne = elim (Bool-cases (touches b base)) [
  | inl t ↦ record {
    heads = rw t (absorb-Holds base fr b cs a.0 k h g s t ne);
    below = λ p lt. rw t (ground (arith, property-take_over b.start base p fr));
  }
  | inr t ↦ record { heads = rw t (k.0, k.1, h); below = λ p lt. rw t refl }
]
final-Attached base lo fr (b ∷ (d ∷ bs)) cs a o k h g s ne =
    let later = final-Attached base (b.start + b.more + 2) fr (d ∷ bs) cs a.1 o.1 k.2 h g s ne in
    let same = λ (p : ℕ). later.below p in
    record {
      heads = (
        later.below b.start (omega arith) ∙ k.0,
        Zeros-range fr (final base fr (d ∷ bs)) (b.start + 1) b.more
            (λ p le lt. same p (omega arith)) k.1,
        later.heads,
      );
      below = λ p lt. later.below p (omega arith);
    }

split_list-skip :
    (base s k : ℕ) (rest : List ℕ)
    → s + k ≤ base + 1
    → split_list base (range s k ++ rest)
      ≡ (range s k ++ (split_list base rest).0, (split_list base rest).1)
unfolding split_list
split_list-skip base s zero rest h = refl
split_list-skip base s (suc k) rest h = ground (arith, split_list-skip base (s + 1) k rest)

split_list-expand :
    (base n : ℕ) (bs : List Block)
    → 0 < n
    → Clear base n bs
    → split_list base (expand bs)
      ≡ (expand (split_blocks base bs).0, expand (split_blocks base bs).1)
unfolding split_list split_blocks
split_list-expand base n [] pos c = refl
split_list-expand base n (b ∷ bs) pos (inr le, c) = ground arith
split_list-expand base n (b ∷ bs) pos (inl lt, c) =
    let skip = split_list-skip base b.start (suc b.more) (expand bs) (omega arith) in
    ground (arith, skip, split_list-expand base n bs pos c)

merge_before-all :
    (base : ℕ) (fr : Frames) (pre : List Block)
    → Holds fr pre
    → merge_before base fr (reverse (expand pre)) ≡ final base fr pre
merge_before-all base fr [] k = refl
merge_before-all base fr (b ∷ bs) k =
    ap (merge_before base fr) (sym (append-nil (reverse (expand (b ∷ bs)))))
    ∙ merge_before-final base fr (b ∷ bs) [] k (λ e. cc)

Holds-split :
    (base : ℕ) (fr : Frames) (bs : List Block)
    → Holds fr bs
    → Holds fr (split_blocks base bs).0 × Holds fr (split_blocks base bs).1
unfolding split_blocks
Holds-split base fr [] k = (tt, tt)
Holds-split base fr (b ∷ bs) k = elim (Bool-cases (ltb base b.start)) [
  | inl e ↦ rw e (tt, k)
  | inr e ↦ let (kept, rest) = Holds-split base fr bs k.2 in rw e ((k.0, k.1, kept), rest)
]

-- The descriptors when the run is in place and joined to the right, and when all is done.
module _ (a : Area) (bs : List Block) (base m : ℕ) (r : Repr a bs) (clear : Clear base (suc m) bs)
    (inner : Zeros a.frames (range (base + 1) m)) where
  abbrev placed : Frames
  placed =
      update a.frames base
        (record { reserved = false; has_property = true; property = suc m; ref = 0 })

  abbrev after_right : Frames
  after_right = merge_after base (suc m) placed (expand (split_blocks base bs).1)

  abbrev released : Frames
  released = final base after_right (split_blocks base bs).0

  released-Attached :
      (Holds after_right (split_blocks base bs).0)
      × Attached base 0 after_right
          (split_blocks base bs).0
          (join_right base m (split_blocks base bs).1)
  released-Attached =
      let around = split_blocks-Around base (suc m) 0 bs (omega arith) r.order clear in
      let (kept, rest) = Holds-split base a.frames bs r.heads in
      let (pre, post) = split_blocks base bs in
      let zeros = Zeros-range a.frames placed (base + 1) m (λ p le lt. ground arith) inner in
      let rest' =
        Holds-same (base + suc m) a.frames placed post (λ p le. ground arith) around.behind rest in
      let right = Holds-right placed base m (ground arith) zeros post around.behind rest' in
      let low = λ (p : ℕ) (lt : p < base).
        merge_after-below placed base m (ground arith) zeros post p around.behind lt
        ∙ ap (λ (c : Page). c.property) (placed-ne p (omega arith)) in
      let left = Holds-before base a.frames after_right pre around.before low kept in
      (
        left,
        final-Attached base 0 after_right pre (join_right base m post) around.before around.order
            left right (join_right-Gapped base m post around.behind)
            (join_right-StartsAt base m post) (join_right-cons base m post),
      )
    where
      placed-ne : (p : ℕ) → p ≢ base → placed p ≡ a.frames p
      placed-ne p ne = ground arith

length-release :
    (base m : ℕ) (bs : List Block)
    → Gapped 0 bs
    → Clear base (suc m) bs
    → length (expand bs) + suc m ≡ length (expand (release base m bs))
length-release base m bs g c =
    let around = split_blocks-Around base (suc m) 0 bs (omega arith) g c in
    let (pre, post) = split_blocks base bs in
    omega (
      arith,
      ap length (expand-release base m bs),
      ap length around.whole,
      length-append (expand pre) (range base (suc m) ++ expand post),
      length-append (range base (suc m)) (expand post),
      length-append (expand pre) (expand post),
      length-range base (suc m),
    )

-- On a free list in order, the return of a run of `suc m` pages, none of them free, whose first
-- page is reserved and whose other pages head no block, succeeds. What is free afterwards is what
-- was free and the run, in order, as maximal blocks with their sizes at the heads, and the count is
-- right.
pub free_pages-release :
    {a : Area} {bs : List Block} (base m : ℕ)
    → Repr a bs
    → Clear base (suc m) bs
    → (a.frames base).reserved ≡ true
    → Zeros a.frames (range (base + 1) m)
    → (a' : Area) × (free_pages base (suc m) a ≡ done a') × Repr a' (release base m bs)
unfolding free_pages
free_pages-release {a} {bs} base m r clear held inner =
    let (left, attached) = released-Attached a bs base m r clear inner in
    let cut =
      ap (split_list base) r.pages ∙ split_list-expand base (suc m) bs (omega arith) clear in
    let (pre, post) = split_blocks base bs in
    let back = merge_before-all base (after_right a bs base m r clear inner) pre left in
    let a' : Area = record {
      frames = released a bs base m r clear inner;
      free_list = expand pre ++ (range base (suc m) ++ expand post);
      nr_free = a.nr_free + suc m;
    } in
    (
      a',
      ground (arith, cut, back),
      record {
        pages = sym (expand-release base m bs);
        order = release-Gapped base m bs r.order clear;
        heads = unfold release in attached.heads;
        count = rw r.count (length-release base m bs r.order clear);
      },
    )
