-- ===== src/Pmm/Tests.antt =====
-- The page allocator on concrete regions.
use os_exercises.Base.{
  ℕ, ◌≡◌, refl, true, false, some, List, [], ◌∷◌, ◌++◌, ◌==◌, arith, if◌then◌else◌, Outcome, done,
}
use os_exercises.Pmm.{Frames, Area, range, alloc_pages, free_pages, split_list}
use os_exercises.Pmm.Blocks.{block, Repr, first_fit}
use os_exercises.Pmm.Alloc.{alloc_pages-first_fit}
use os_exercises.Pmm.Release.{release, split_blocks}
use os_exercises.Pmm.Free.{free_pages-release}
use os_exercises.Pmm.RoundTrip.{free_pages-alloc_pages}

abbrev boot : Frames
boot p = record { reserved = true; has_property = false; property = 0; ref = 0 }

-- Pages 4 to 6 and 10 to 15 are free.
abbrev area : Area
area = record {
  frames = λ p. record {
    reserved = true;
    has_property = false;
    property = if p == 4 then 3 else if p == 10 then 6 else 0;
    ref = 0;
  };
  free_list = range 4 3 ++ range 10 6;
  nr_free = 9;
}

area-Repr : Repr area (block 4 2 ∷ block 10 5 ∷ [])
area-Repr = record { pages = refl; order = omega arith; heads = omega arith; count = refl }

abbrev listed : Outcome Area → List ℕ
listed (done a) = a.free_list
listed _ = []

listed_free : listed (free_pages 7 3 area) ≡ range 4 12
unfolding free_pages split_list
listed_free = refl

release_both : release 7 2 (block 4 2 ∷ block 10 5 ∷ []) ≡ block 4 11 ∷ []
unfolding release split_blocks
release_both = refl

alloc_pages-first_fit_example :
    (a' : Area) × (alloc_pages 4 area ≡ done (some 10, a')) × Repr a' (block 4 2 ∷ block 14 1 ∷ [])
unfolding first_fit
alloc_pages-first_fit_example = alloc_pages-first_fit 4 (omega arith) area-Repr

free_pages-release_example :
    (a' : Area) × (free_pages 7 3 area ≡ done a')
    × Repr a' (release 7 2 (block 4 2 ∷ block 10 5 ∷ []))
free_pages-release_example = free_pages-release 7 2 area-Repr (omega arith) refl (omega arith)

free_pages-alloc_pages_example :
    (a' a'' : Area) × (alloc_pages 4 area ≡ done (some 10, a'))
    × (free_pages 10 4 a' ≡ done a'')
    × Repr a'' (block 4 2 ∷ block 10 5 ∷ [])
unfolding first_fit
free_pages-alloc_pages_example = free_pages-alloc_pages 4 10 (omega arith) area-Repr refl
