-- ===== src/Vmm/Map.antt =====
-- `mm_map`: which ranges become areas, and what happens to the others.
use mathlib.Core.Path.{subst}
use os_exercises.Base.{
  ℕ, ◌+◌, ◌%◌, ◌^◌, ◌≤◌, ◌<◌, ◌≡◌, refl, Bool, true, false, none, some, ◌⊎◌, inl, inr, arith,
  Bool-cases, Option-cases, is_some, done, panic, Outcome-cases, e_inval, All, ltb,
}
use os_exercises.Vmm.{
  Vma, Mm, find_in, find_vma, insert_vma_struct, round_down, round_up, add32, user_access, mm_map,
}
use os_exercises.Vmm.Areas.{IsValid, Apart, find_in-mem}
use os_exercises.Vmm.Find.{find_vma_lem, find_vma_same, find_vma-IsValid}
use os_exercises.Vmm.Insert.{Extends, insert-accepts, insert-finds}

-- The area that a call asks for.
abbrev pub wanted : (addr len flags : ℕ) → Vma
wanted addr len flags = record {
  vm_start = round_down addr;
  vm_end = round_up (add32 addr len);
  vm_flags = flags;
}

-- A range whose sum does not wrap is widened to whole pages that cover it.
pub wanted-covers :
    (addr len flags : ℕ)
    → addr + len < 2 ^ 32
    → user_access (round_down addr) (round_up (add32 addr len)) ≡ true
    → let v = wanted addr len flags in
      (v.vm_start ≤ addr)
      × (addr + len ≤ v.vm_end)
      × (v.vm_start % 4096 ≡ 0)
      × (v.vm_end % 4096 ≡ 0)
unfolding user_access round_up round_down
wanted-covers addr len flags h ok = ground arith

access_lt : {a b : ℕ} → user_access a b ≡ true → a < b
unfolding user_access
access_lt h = ground arith

module _ {mm : Mm} (addr len flags : ℕ) (got : Bool) (v : IsValid mm) where
  -- The `mm` behind the search for an area at the start.
  abbrev searched : Mm
  searched = (find_vma mm (round_down addr)).1

  abbrev end : ℕ
  end = round_up (add32 addr len)

  -- `mm_map` refuses with -E_INVAL, changing no area, what is not a range of user memory and a
  -- range whose first page lies in an area.
  pub mm_map-refuses :
      (user_access (round_down addr) (round_up (add32 addr len)) ≡ false)
        ⊎ (is_some (find_in mm.mmap_list (round_down addr)) ≡ true)
      → (mm' : Mm) × (mm_map (some mm) addr len flags got ≡ done (inl e_inval, some mm'))
        × (mm'.mmap_list ≡ mm.mmap_list)
  unfolding mm_map
  mm_map-refuses (inl out) = (mm, ground arith, refl)
  mm_map-refuses (inr taken) = elim (Option-cases (find_in mm.mmap_list (round_down addr))) [
    | inl free ↦ ground arith
    | inr (w, found) ↦ elim (Bool-cases (user_access (round_down addr) end)) [
      | inr out ↦ (mm, ground arith, refl)
      | inl inside ↦ (
        searched,
        ground (arith, find_vma_lem (round_down addr) v, begins_before w found inside),
        (find_vma_same mm (round_down addr)).0,
      )
    ]
  ]
    where
      begins_before :
          (w : Vma)
          → find_in mm.mmap_list (round_down addr) ≡ some w
          → user_access (round_down addr) end ≡ true
          → ltb w.vm_start end ≡ true
      begins_before w found inside =
          ground (arith, find_in-mem mm.mmap_list (round_down addr) w found, access_lt inside)

  Extends-searched : (w : Vma) {mm' : Mm} → Extends searched w mm' → Extends mm w mm'
  Extends-searched w {mm'} (ok, count, finds) =
      let (list_same, count_same) = find_vma_same mm (round_down addr) in
      (ok, rw (← count_same) count, λ a. rw (← list_same) (finds a))

  hole_before :
      {w : Vma} {mm' : Mm}
      → mm_map (some mm) addr len flags got ≡ done (inr w, some mm')
      → find_in mm.mmap_list (round_down addr) ≡ none
  hole_before h = elim (Option-cases (find_in mm.mmap_list (round_down addr))) [
    | inl free ↦ free
    | inr (w, found) ↦ let (mm', refused, same) = mm_map-refuses (inr (rw found refl)) in cc
  ]

  -- In a valid `mm`, what `mm_map` maps is exactly the wanted area, in user memory, where nothing
  -- began; every other address keeps its area, and the invariant is kept.
  pub mm_map-maps :
      {w : Vma} {mm' : Mm}
      → mm_map (some mm) addr len flags got ≡ done (inr w, some mm')
      → (w ≡ wanted addr len flags)
        × (user_access (round_down addr) (round_up (add32 addr len)) ≡ true)
        × (find_in mm.mmap_list (round_down addr) ≡ none)
        × Extends mm (wanted addr len flags) mm'
  unfolding mm_map
  mm_map-maps {w} {mm'} h =
      elim (Outcome-cases (insert_vma_struct searched (wanted addr len flags))) [
        | inr stop ↦ ground (arith, find_vma_lem (round_down addr) v)
        | inl (mm'', linked) ↦
            let ext =
              insert-finds (wanted addr len flags) (find_vma-IsValid (round_down addr) v) linked in
            let same : mm'' ≡ mm' = ground (arith, find_vma_lem (round_down addr) v) in
            (
              ground (arith, find_vma_lem (round_down addr) v),
              ground (arith, find_vma_lem (round_down addr) v),
              hole_before h,
              subst (Extends mm (wanted addr len flags)) same
                  (Extends-searched (wanted addr len flags) ext),
            )
      ]

  -- A range that begins in a hole and runs into a later area stops the kernel: the check that
  -- `mm_map` makes does not see that area, and the assertion of `insert_vma_struct` does.
  pub mm_map-panics :
      user_access (round_down addr) (round_up (add32 addr len)) ≡ true
      → find_in mm.mmap_list (round_down addr) ≡ none
      → got ≡ true
      → ¬ All (Apart (wanted addr len flags)) mm.mmap_list
      → mm_map (some mm) addr len flags got ≡ panic
  unfolding mm_map
  mm_map-panics inside free mem clash =
      elim (Outcome-cases (insert_vma_struct searched (wanted addr len flags))) [
        | inr stop ↦ ground (arith, find_vma_lem (round_down addr) v)
        | inl linked ↦
            let ok = find_vma-IsValid (round_down addr) v in
            let apart = ((insert-accepts (wanted addr len flags) ok).0 linked).1 in
            absurd (clash (rw (find_vma_same mm (round_down addr)).0 at apart))
      ]

  -- In a valid `mm` and given memory, a range of user memory that begins in a hole and overlaps no
  -- area is mapped.
  pub mm_map-fits :
      user_access (round_down addr) (round_up (add32 addr len)) ≡ true
      → find_in mm.mmap_list (round_down addr) ≡ none
      → got ≡ true
      → All (Apart (wanted addr len flags)) mm.mmap_list
      → (mm' : Mm) × (mm_map (some mm) addr len flags got
          ≡ done (inr (wanted addr len flags), some mm'))
  unfolding mm_map
  mm_map-fits inside free mem apart =
      let ok = find_vma-IsValid (round_down addr) v in
      let apart' : All (Apart (wanted addr len flags)) searched.mmap_list =
        rw (find_vma_same mm (round_down addr)).0 apart in
      let (mm', linked) =
        (insert-accepts {mm = searched} (wanted addr len flags) ok).1 (access_lt inside, apart') in
      (mm', ground (arith, find_vma_lem (round_down addr) v))
