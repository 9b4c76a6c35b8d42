-- ===== src/Pmm.antt =====
-- The first-fit allocator of physical pages (kern/mm/default_pmm.c).
-- A page is its index in the array `pages`. Counts of pages cannot overflow, since there are fewer
-- than 2 ^ 20 pages.
pub mod Blocks
pub mod Alloc
pub mod Free
pub mod Init
pub mod Merge
pub mod Release
pub mod RoundTrip
mod Tests
use os_exercises.Base.{
  ℕ, zero, suc, ◌+◌, ◌-◌, Bool, true, false, Option, none, some, List, [], ◌∷◌, ◌++◌, reverse, ltb,
  leb, ◌==◌, if◌then◌else◌, Outcome, done, panic, ◌>>=◌, ◌>>◌, assert,
}

-- `struct Page`: the bits PG_reserved and PG_property of `flags`, and the counts.
pub record Page : Type 0 where
  pub reserved : Bool
  pub has_property : Bool
  pub property : ℕ
  pub ref : ℕ

abbrev pub Frames : Type 0
Frames = ℕ → Page

abbrev pub update : Frames → ℕ → Page → Frames
update fr p c q = if q == p then c else fr q

-- `free_area_t`, with the page descriptors: `free_list` holds every free page.
pub record Area : Type 0 where
  pub frames : Frames
  pub free_list : List ℕ
  pub nr_free : ℕ

-- The pages from `s` on, `n` of them.
abbrev pub range : ℕ → ℕ → List ℕ
range s zero = []
range s (suc n) = s ∷ range (s + 1) n

-- `default_init`.
unfoldable pub init : Frames → Area
init fr = record { frames = fr; free_list = []; nr_free = 0 }

-- The descriptor of a free page that heads no block.
abbrev pub fresh_page : Page
fresh_page = record { reserved = false; has_property = true; property = 0; ref = 0 }

-- The loop of `default_init_memmap`.
unfoldable pub init_loop : ℕ → ℕ → Frames → List ℕ → Outcome (Frames × List ℕ)
init_loop zero p fr l = done (fr, l)
init_loop (suc n) p fr l =
    assert (fr p).reserved >> init_loop n (p + 1) (update fr p fresh_page) (l ++ (p ∷ []))

unfoldable pub init_memmap : ℕ → ℕ → Area → Outcome Area
init_memmap base n a = do
  assert (ltb 0 n)
  (fr, l) ← init_loop n base a.frames a.free_list
  done (record {
    frames = update fr base (record (fr base) { property = n });
    free_list = l;
    nr_free = a.nr_free + n;
  })

-- SetPageReserved and ClearPageProperty.
abbrev pub claimed : Page → Page
claimed c = record c { reserved = true; has_property = false }

-- The inner loop of `default_alloc_pages`: `n` pages are unlinked from the list that starts at
-- `le`. Past its end the loop would unlink the list head: a fault.
unfoldable pub take_pages : ℕ → Frames → List ℕ → Outcome (Frames × List ℕ)
take_pages zero fr l = done (fr, l)
take_pages (suc n) fr [] = panic
take_pages (suc n) fr (p ∷ l) = take_pages n (update fr p (claimed (fr p))) l

-- What is left of the block of `p` becomes a block of its own.
abbrev pub split_block : ℕ → ℕ → Frames → List ℕ → Outcome Frames
split_block p n fr [] = if ltb n (fr p).property then panic else done fr
split_block p n fr (q ∷ l) =
    if ltb n (fr p).property
    then done (update fr q (record (fr q) { property = (fr p).property - n }))
    else done fr

-- The outer loop of `default_alloc_pages`, along the list: the page found, and the list left.
unfoldable pub alloc_walk : ℕ → Frames → List ℕ → Outcome (Option ℕ × Frames × List ℕ)
alloc_walk n fr [] = done (none, fr, [])
alloc_walk n fr (p ∷ l) =
    let next : Outcome (Option ℕ × Frames × List ℕ) = (do
      (r, fr', l') ← alloc_walk n fr l
      done (r, fr', p ∷ l')) in
    if leb n (fr p).property
    then (do
      (fr', rest) ← take_pages n fr (p ∷ l)
      fr'' ← split_block p n fr' rest
      done (some p, update fr'' p (claimed (fr'' p)), rest))
    else next

abbrev pub taken : Option ℕ → ℕ → ℕ → ℕ
taken none n free = free
taken (some p) n free = free - n

unfoldable pub alloc_pages : ℕ → Area → Outcome (Option ℕ × Area)
alloc_pages n a = do
  assert (ltb 0 n)
  if ltb a.nr_free n then done (none, a) else (do
    (r, fr, l) ← alloc_walk n a.frames a.free_list
    done (r, record { frames = fr; free_list = l; nr_free = taken r n a.nr_free }))

-- The list before and from the first page behind `base`.
unfoldable pub split_list : ℕ → List ℕ → List ℕ × List ℕ
split_list base [] = ([], [])
split_list base (p ∷ l) =
    let (before, after) = split_list base l in
    if ltb base p then ([], p ∷ l) else (p ∷ before, after)

-- `to->property += from->property; from->property = 0;`
unfoldable pub take_over : (to from : ℕ) → Frames → Frames
take_over to from fr =
    let fr' = update fr to (record (fr to) { property = (fr to).property + (fr from).property }) in
    update fr' from (record (fr' from) { property = 0 })

-- A free block that starts right behind the new one is joined to it.
abbrev pub merge_after : ℕ → ℕ → Frames → List ℕ → Frames
merge_after base n fr [] = fr
merge_after base n fr (p ∷ l) = if base + n == p then take_over base p fr else fr

-- The walk back from the new block to the head of the block before; the list is in reverse.
unfoldable pub merge_back : ℕ → Frames → List ℕ → Frames
merge_back base fr [] = fr
merge_back base fr (p ∷ l) =
    let further = merge_back base fr l in
    if (fr p).property == 0 then further else take_over p base fr

abbrev pub merge_before : ℕ → Frames → List ℕ → Frames
merge_before base fr [] = fr
merge_before base fr (p ∷ l) = if p + 1 == base then merge_back base fr (p ∷ l) else fr

unfoldable pub free_pages : ℕ → ℕ → Area → Outcome Area
free_pages base n a = do
  assert (ltb 0 n)
  assert (a.frames base).reserved
  let (before, after) = split_list base a.free_list
  let fr =
      update a.frames base (record { reserved = false; has_property = true; property = n; ref = 0 })
  let fr' = merge_before base (merge_after base n fr after) (reverse before)
  done (record {
    frames = fr';
    free_list = before ++ (range base n ++ after);
    nr_free = a.nr_free + n;
  })

unfoldable pub nr_free_pages : Area → ℕ
nr_free_pages a = a.nr_free
