-- ===== src/Pmm/Release.antt =====
-- The return of a run of pages, on blocks: the run is put between the blocks before and behind it,
-- and adjacent blocks become one.
use os_exercises.Base.{
  ℕ, zero, suc, ◌+◌, ◌≤◌, ◌<◌, ◌≡◌, ◌≢◌, refl, sym, ap, ◌∙◌, Bool, true, false, List, [], ◌∷◌, ◌++◌,
  arith, All, ltb, ◌==◌, if◌then◌else◌, Bool-cases, inl, inr, ◌⊎◌,
}
use mathlib.Core.List.{append_assoc, append-nil}
use os_exercises.Pmm.{range}
use os_exercises.Pmm.Blocks.{Block, block, expand, Gapped, Gapped-mono}

-- The blocks before and from the first one behind `base`.
unfoldable pub split_blocks : ℕ → List Block → List Block × List Block
split_blocks base [] = ([], [])
split_blocks base (b ∷ bs) =
    let (pre, post) = split_blocks base bs in
    if ltb base b.start then ([], b ∷ bs) else (b ∷ pre, post)

-- The run of `suc m` pages from `base`, joined with a block that starts right behind it.
abbrev pub join_right : ℕ → ℕ → List Block → List Block
join_right base m [] = block base m ∷ []
join_right base m (c ∷ cs) =
    if base + suc m == c.start then block base (m + suc c.more) ∷ cs else block base m ∷ c ∷ cs

-- Is the block `b` right before `base`?
abbrev pub touches : Block → ℕ → Bool
touches b base = b.start + b.more + 1 == base

-- The last block before takes the first one behind, if they touch.
abbrev pub absorb : Block → List Block → List Block
absorb b [] = b ∷ []
absorb b (c ∷ cs) = block b.start (b.more + suc c.more) ∷ cs

abbrev pub attach : ℕ → List Block → List Block → List Block
attach base [] cs = cs
attach base (b ∷ []) cs = if touches b base then absorb b cs else b ∷ cs
attach base (b ∷ (d ∷ bs)) cs = b ∷ attach base (d ∷ bs) cs

unfoldable pub release : ℕ → ℕ → List Block → List Block
release base m bs =
    let (pre, post) = split_blocks base bs in attach base pre (join_right base m post)

-- No page of the run is free.
abbrev pub Clear : ℕ → ℕ → List Block → Type 0
Clear base n = All (λ b. (b.start + b.more < base) ⊎ (base + n ≤ b.start))

-- What stands before and behind the run.
pub record Around (base n lo : ℕ) (bs : List Block) (s : List Block × List Block) : Type 0 where
  pub before : All (λ b. b.start + b.more < base) s.0
  pub order : Gapped lo s.0
  pub behind : Gapped (base + n) s.1
  pub whole : expand bs ≡ expand s.0 ++ expand s.1

pub split_blocks-Around :
    (base n lo : ℕ) (bs : List Block)
    → 0 < n
    → Gapped lo bs
    → Clear base n bs
    → Around base n lo bs (split_blocks base bs)
unfolding split_blocks
split_blocks-Around base n lo [] pos g c = record {
  before = tt;
  order = tt;
  behind = tt;
  whole = refl;
}
split_blocks-Around base n lo (b ∷ bs) pos g (inr le, c) =
    let found : ltb base b.start ≡ true = ground arith in
    rw found (record { before = tt; order = tt; behind = (omega arith, g.1); whole = refl })
split_blocks-Around base n lo (b ∷ bs) pos g (inl lt, c) =
    let passed : ltb base b.start ≡ false = ground arith in
    let rest = split_blocks-Around base n (b.start + b.more + 2) bs pos g.1 c in
    rw passed (record {
      before = (lt, rest.before);
      order = (g.0, rest.order);
      behind = rest.behind;
      whole = rw rest.whole (
          ap (λ l. b.start ∷ l)
            (sym (
              append_assoc (range (b.start + 1) b.more) (expand (split_blocks base bs).0)
                (expand (split_blocks base bs).1))));
    })

range-join :
    (s k t j : ℕ) (l : List ℕ) → s + k ≡ t → range s (k + j) ++ l ≡ range s k ++ (range t j ++ l)
range-join s zero t j l e =
    let from : s ≡ t = omega arith in let size : 0 + j ≡ j = omega arith in rw (size, from) refl
range-join s (suc k) t j l e =
    let size : suc k + j ≡ suc (k + j) = omega arith in
    rw size (ap (λ r. s ∷ r) (range-join (s + 1) k t j l (omega arith)))

-- Blocks of which the first, if there is one, starts at `base`.
abbrev pub StartsAt : ℕ → List Block → Type 0
StartsAt base [] = Unit
StartsAt base (c ∷ cs) = c.start ≡ base

pub join_right-StartsAt : (base m : ℕ) (cs : List Block) → StartsAt base (join_right base m cs)
join_right-StartsAt base m [] = refl
join_right-StartsAt base m (c ∷ cs) = elim (Bool-cases (base + suc m == c.start)) [
  | inl e ↦ rw e refl
  | inr e ↦ rw e refl
]

-- The pages of the joined blocks are those of the parts, in order.
pub expand-join_right :
    (base m : ℕ) (cs : List Block) → expand (join_right base m cs) ≡ range base (suc m) ++ expand cs
expand-join_right base m [] = refl
expand-join_right base m (c ∷ cs) = elim (Bool-cases (base + suc m == c.start)) [
  | inr apart ↦ rw apart refl
  | inl adjacent ↦
      rw adjacent (
        ap (λ l. base ∷ l)
          (range-join (base + 1) m c.start (suc c.more) (expand cs) (ground arith)))
]

expand-absorb :
    (b : Block) (base : ℕ) (cs : List Block)
    → StartsAt base cs
    → touches b base ≡ true
    → expand (absorb b cs) ≡ expand (b ∷ cs)
expand-absorb b base [] s t = refl
expand-absorb b base (c ∷ cs) s t =
    let joined = range-join (b.start + 1) b.more c.start (suc c.more) (expand cs) (ground arith) in
    ap (λ l. b.start ∷ l) joined

pub expand-attach :
    (base : ℕ) (pre cs : List Block)
    → StartsAt base cs
    → expand (attach base pre cs) ≡ expand pre ++ expand cs
expand-attach base [] cs s = refl
expand-attach base (b ∷ []) cs s =
    let plain =
      ap (λ l. b.start ∷ (l ++ expand cs)) (sym (append-nil (range (b.start + 1) b.more))) in
    elim (Bool-cases (touches b base)) [
      | inl t ↦ rw t (expand-absorb b base cs s t ∙ plain)
      | inr t ↦ rw t plain
    ]
expand-attach base (b ∷ (d ∷ bs)) cs s =
    ap (λ l. b.start ∷ (range (b.start + 1) b.more ++ l)) (expand-attach base (d ∷ bs) cs s)
    ∙ ap (λ l. b.start ∷ l)
        (sym (append_assoc (range (b.start + 1) b.more) (expand (d ∷ bs)) (expand cs)))

-- Joined blocks leave a page in use between them.
pub join_right-Gapped :
    (base m : ℕ) (cs : List Block) → Gapped (base + suc m) cs → Gapped base (join_right base m cs)
join_right-Gapped base m [] g = (omega arith, tt)
join_right-Gapped base m (c ∷ cs) g = elim (Bool-cases (base + suc m == c.start)) [
  | inl e ↦ rw e (omega arith, Gapped-mono (c.start + c.more + 2) _ cs (ground arith) g.1)
  | inr e ↦ rw e (omega arith, (ground arith, g.1))
]

absorb-Gapped :
    (b : Block) (base lo : ℕ) (cs : List Block)
    → b.start + b.more < base
    → lo ≤ b.start
    → Gapped base cs
    → StartsAt base cs
    → Gapped lo (if touches b base then absorb b cs else b ∷ cs)
absorb-Gapped b base lo [] a le h s = elim (Bool-cases (touches b base)) [
  | inl t ↦ rw t (le, tt)
  | inr t ↦ rw t (le, tt)
]
absorb-Gapped b base lo (c ∷ cs) a le h s = elim (Bool-cases (touches b base)) [
  | inl t ↦ rw t (le, Gapped-mono (c.start + c.more + 2) _ cs (ground arith) h.1)
  | inr t ↦ rw t (le, (ground arith, h.1))
]

attach-Gapped :
    (base lo : ℕ) (pre cs : List Block)
    → All (λ b. b.start + b.more < base) pre
    → lo ≤ base
    → Gapped lo pre
    → Gapped base cs
    → StartsAt base cs
    → Gapped lo (attach base pre cs)
attach-Gapped base lo [] cs a le g h s = Gapped-mono base lo cs le h
attach-Gapped base lo (b ∷ []) cs a le g h s = absorb-Gapped b base lo cs a.0 g.0 h s
attach-Gapped base lo (b ∷ (d ∷ bs)) cs a le g h s =
    (g.0, attach-Gapped base (b.start + b.more + 2) (d ∷ bs) cs a.1 (omega arith) g.1 h s)

-- The blocks after the return are in order, with gaps, and hold the run and what was free before.
pub release-Gapped :
    (base m : ℕ) (bs : List Block)
    → Gapped 0 bs
    → Clear base (suc m) bs
    → Gapped 0 (release base m bs)
unfolding release
release-Gapped base m bs g c =
    let s = split_blocks-Around base (suc m) 0 bs (omega arith) g c in
    let (pre, post) = split_blocks base bs in
    attach-Gapped base 0 pre (join_right base m post) s.before (omega arith) s.order
      (join_right-Gapped base m post s.behind) (join_right-StartsAt base m post)

pub expand-release :
    (base m : ℕ) (bs : List Block)
    → expand (release base m bs)
      ≡ expand (split_blocks base bs).0 ++ (range base (suc m) ++ expand (split_blocks base bs).1)
unfolding release
expand-release base m bs =
    let (pre, post) = split_blocks base bs in
    expand-attach base pre (join_right base m post) (join_right-StartsAt base m post)
    ∙ ap (λ l. expand pre ++ l) (expand-join_right base m post)

pub join_right-cons : (base m : ℕ) (cs : List Block) → join_right base m cs ≢ []
join_right-cons base m [] e = cc
join_right-cons base m (c ∷ cs) e = ground arith
