-- ===== src/Vmm/Tests.antt =====
-- The memory areas on concrete address spaces.
use mathlib.Core.Option
use os_exercises.Base.{
  ℕ, ◌-◌, ◌<◌, ◌≡◌, refl, true, false, ◌&&◌, none, some, [], ◌∷◌, inl, inr, ◌↔◌, arith, done, panic,
  All,
}
use os_exercises.Vmm.{
  Vma, Mm, find_in, find_vma, insert_vma_struct, insert_after, check_vma_overlap, user_mem_check,
  user_access, add32, mm_map, round_down, round_up, dup_mmap, allows, check_loop,
}
use os_exercises.Vmm.Areas.{IsValid, Apart}
use os_exercises.Vmm.Find.{find_vma_lem}
use os_exercises.Vmm.Insert.{Extends, insert-accepts, insert-finds}
use os_exercises.Vmm.Access.{all_permitted, user_mem_check-exact}
use os_exercises.Vmm.Map.{wanted, mm_map-maps, mm_map-panics, mm_map-fits}
use os_exercises.Vmm.Dup.{dup_mmap-copies}

abbrev area : ℕ → ℕ → ℕ → Vma
area start end flags = record { vm_start = start; vm_end = end; vm_flags = flags }

-- Readable text, then a writable stack.
abbrev text : Vma
text = area 0x800000 0x802000 1

abbrev stack : Vma
stack = area 0x810000 0x820000 11

abbrev space : Mm
space = record { mmap_list = text ∷ stack ∷ []; mmap_cache = some stack; map_count = 2 }

space-IsValid : IsValid space
space-IsValid = record { chain = omega arith; count = refl; cache = inr (inl refl) }

abbrev heap : Vma
heap = area 0x802000 0x804000 3

abbrev larger : Mm
larger = record space { mmap_list = text ∷ heap ∷ stack ∷ []; map_count = 3 }

insert_heap : insert_vma_struct space heap ≡ done larger
unfolding insert_vma_struct insert_after check_vma_overlap
insert_heap = refl

-- The guard page of the stack may be read and not written.
check_guard :
    (Option.map (λ r. r.0) (user_mem_check (some space) 0x810000 16 true) ≡ some false)
    × (Option.map (λ r. r.0) (user_mem_check (some space) 0x811000 16 true) ≡ some true)
    × (Option.map (λ r. r.0) (user_mem_check (some space) 0x801ff0 32 false) ≡ some false)
unfolding user_mem_check user_access check_loop find_vma find_in allows
check_guard = (refl, refl, refl)

find_vma_lem_example : (find_vma space 0x800010).0 ≡ find_in (text ∷ stack ∷ []) 0x800010
find_vma_lem_example = find_vma_lem 0x800010 space-IsValid

insert-accepts_example :
    ((mm' : Mm) × (insert_vma_struct space heap ≡ done mm'))
    ↔ ((0x802000 < 0x804000) × All (Apart heap) (text ∷ stack ∷ []))
insert-accepts_example = insert-accepts heap space-IsValid

insert-finds_example : Extends space heap larger
insert-finds_example = insert-finds heap space-IsValid insert_heap

user_mem_check-exact_example :
    Option.map (λ r. r.0) (user_mem_check (some space) 0x811000 16 true)
    ≡ some (
        user_access 0x811000 (add32 0x811000 16)
        && all_permitted true (text ∷ stack ∷ []) 0x811000 (add32 0x811000 16 - 0x811000))
user_mem_check-exact_example = user_mem_check-exact 0x811000 16 true space-IsValid

map_heap : mm_map (some space) 0x802000 0x2000 3 true ≡ done (inr heap, some larger)
unfolding mm_map round_down round_up user_access find_vma find_in insert_vma_struct insert_after
    check_vma_overlap
map_heap = refl

mm_map-maps_example :
    (heap ≡ wanted 0x802000 0x2000 3)
    × (user_access (round_down 0x802000) (round_up (add32 0x802000 0x2000)) ≡ true)
    × (find_in (text ∷ stack ∷ []) (round_down 0x802000) ≡ none)
    × Extends space (wanted 0x802000 0x2000 3) larger
mm_map-maps_example = mm_map-maps 0x802000 0x2000 3 true space-IsValid map_heap

-- From 0x802000 the range runs into the stack.
mm_map-panics_example : mm_map (some space) 0x802000 0x20000 3 true ≡ panic
unfolding round_down round_up user_access find_in
mm_map-panics_example =
    mm_map-panics 0x802000 0x20000 3 true space-IsValid refl refl refl (λ h. omega arith)

mm_map-fits_example :
    (mm' : Mm) × (mm_map (some space) 0x802000 0x2000 3 true
      ≡ done (inr (wanted 0x802000 0x2000 3), some mm'))
unfolding round_down round_up user_access find_in
mm_map-fits_example = mm_map-fits 0x802000 0x2000 3 true space-IsValid refl refl refl (omega arith)

abbrev blank : Mm
blank = record { mmap_list = []; mmap_cache = none; map_count = 0 }

dup_mmap-copies_example :
    (to' : Mm) × (dup_mmap (λ _. true) (λ _. true) blank space ≡ done (true, to'))
    × (to'.mmap_list ≡ text ∷ stack ∷ [])
    × (to'.map_count ≡ 2)
dup_mmap-copies_example =
    dup_mmap-copies (λ _. true) (λ _. true) (λ _. refl) (λ _. refl) blank space-IsValid refl refl
