-- ===== src/Vmm/Find.antt =====
-- `find_vma`: the cache changes no answer.
use os_exercises.Base.{ℕ, ◌≡◌, refl, sym, Option, none, some, arith}
use os_exercises.Vmm.{Vma, Mm, find_in, find_cached, remember, find_vma}
use os_exercises.Vmm.Areas.{IsValid, Chain, CacheIn, find_in_unique, find_in-mem}

find_cached_lem :
    (mm : Mm) (a : ℕ) (cache : Option Vma)
    → Chain 0 mm.mmap_list
    → CacheIn mm.mmap_list cache
    → find_cached mm a cache ≡ find_in mm.mmap_list a
find_cached_lem mm a none c m = refl
find_cached_lem mm a (some v) c m = ground (arith, find_in_unique 0 mm.mmap_list v a c m)

-- In a valid `mm`, `find_vma` answers as a walk over the whole list does, whatever the cache holds.
pub find_vma_lem : {mm : Mm} (a : ℕ) → IsValid mm → (find_vma mm a).0 ≡ find_in mm.mmap_list a
unfolding find_vma
find_vma_lem {mm} a v = ground (arith, find_cached_lem mm a mm.mmap_cache v.chain v.cache)

-- `find_vma` changes nothing but the cache.
pub find_vma_same :
    (mm : Mm) (a : ℕ)
    → ((find_vma mm a).1.mmap_list ≡ mm.mmap_list) × ((find_vma mm a).1.map_count ≡ mm.map_count)
unfolding find_vma
find_vma_same mm a = ground arith

CacheIn-remember :
    (mm : Mm) (a : ℕ) (found : Option Vma)
    → IsValid mm
    → found ≡ find_in mm.mmap_list a
    → CacheIn mm.mmap_list (remember mm found).1.mmap_cache
CacheIn-remember mm a none v e = v.cache
CacheIn-remember mm a (some w) v e = (find_in-mem mm.mmap_list a w (sym e)).0

pub find_vma-IsValid : {mm : Mm} (a : ℕ) → IsValid mm → IsValid (find_vma mm a).1
unfolding find_vma
find_vma-IsValid {mm} a v =
    let found = find_cached_lem mm a mm.mmap_cache v.chain v.cache in
    let cache = CacheIn-remember mm a (find_cached mm a mm.mmap_cache) v found in
    record {
      chain = rw (find_vma_same mm a).0 v.chain;
      count = ground (arith, find_vma_same mm a);
      cache = rw (find_vma_same mm a).0 cache;
    }
