-- ===== src/Vmm.antt =====
-- The virtual memory areas of a process (kern/mm/vmm.c, kern/mm/vmm.h).
pub mod Access
pub mod Areas
pub mod Dup
pub mod Find
pub mod Insert
pub mod Map
mod Tests
use mathlib.Core.Option
use os_exercises.Base.{
  ℕ, zero, suc, ◌+◌, ◌-◌, ◌%◌, ◌^◌, Bool, true, false, ◌&&◌, not, Option, none, some, List, [], ◌∷◌,
  reverse, ◌⊎◌, inl, inr, ltb, leb, ◌==◌, if◌then◌else◌, bit_and, Outcome, done, panic, ◌>>=◌, ◌>>◌,
  assert, Error, e_inval, e_no_mem,
}

-- `struct vma_struct`: the area [vm_start, vm_end) and its flags.
pub record Vma : Type 0 where
  pub vm_start : ℕ
  pub vm_end : ℕ
  pub vm_flags : ℕ

-- `struct mm_struct`: the areas in the order of `mmap_list`, the last one found, and their number.
pub record Mm : Type 0 where
  pub mmap_list : List Vma
  pub mmap_cache : Option Vma
  pub map_count : ℕ

-- The flags of vmm.h.
abbrev pub vm_read : ℕ
vm_read = 1

abbrev pub vm_write : ℕ
vm_write = 2

abbrev pub vm_stack : ℕ
vm_stack = 8

abbrev pub contains : Vma → ℕ → Bool
contains v addr = leb v.vm_start addr && ltb addr v.vm_end

-- The walk of `find_vma` over `mmap_list`.
unfoldable pub find_in : List Vma → ℕ → Option Vma
find_in [] addr = none
find_in (v ∷ vs) addr = if contains v addr then some v else find_in vs addr

-- `mm->mmap_cache = vma`, if an area was found.
abbrev pub remember : Mm → Option Vma → Option Vma × Mm
remember mm none = (none, mm)
remember mm (some v) = (some v, record mm { mmap_cache = some v })

abbrev pub find_cached : Mm → ℕ → Option Vma → Option Vma
find_cached mm addr none = find_in mm.mmap_list addr
find_cached mm addr (some v) = if contains v addr then some v else find_in mm.mmap_list addr

-- `find_vma` on an `mm` that is not NULL.
unfoldable pub find_vma : Mm → ℕ → Option Vma × Mm
find_vma mm addr = remember mm (find_cached mm addr mm.mmap_cache)

unfoldable pub check_vma_overlap : Vma → Vma → Outcome (Unit {0})
check_vma_overlap prev next = do
  assert (ltb prev.vm_start prev.vm_end)
  assert (leb prev.vm_end next.vm_start)
  assert (ltb next.vm_start next.vm_end)

-- `check_vma_overlap` where the neighbour before exists.
abbrev pub check_prev : Option Vma → Vma → Outcome (Unit {0})
check_prev none v = done tt
check_prev (some p) v = check_vma_overlap p v

-- The walk of `insert_vma_struct`: `prev` is `le_prev`, the list is what follows it.
unfoldable pub insert_after : Option Vma → List Vma → Vma → Outcome (List Vma)
insert_after prev [] v = do check_prev prev v; done (v ∷ [])
insert_after prev (x ∷ xs) v =
    let later : Outcome (List Vma) = (do rest ← insert_after (some x) xs v; done (x ∷ rest)) in
    if ltb v.vm_start x.vm_start
    then (do check_prev prev v; check_vma_overlap v x; done (v ∷ x ∷ xs))
    else later

unfoldable pub insert_vma_struct : Mm → Vma → Outcome Mm
insert_vma_struct mm v = do
  assert (ltb v.vm_start v.vm_end)
  vs ← insert_after none mm.mmap_list v
  done (record mm { mmap_list = vs; map_count = mm.map_count + 1 })

-- The bounds of user and kernel memory (memlayout.h), for a range [start, end).
abbrev pub user_base : ℕ
user_base = 0x00200000

abbrev pub user_top : ℕ
user_top = 0xB0000000

abbrev pub kern_base : ℕ
kern_base = 0xC0000000

abbrev pub kern_top : ℕ
kern_top = 0xF8000000

unfoldable pub user_access : ℕ → ℕ → Bool
user_access start end = leb user_base start && ltb start end && leb end user_top

unfoldable pub kern_access : ℕ → ℕ → Bool
kern_access start end = leb kern_base start && ltb start end && leb end kern_top

abbrev pub page_size : ℕ
page_size = 4096

-- `uintptr_t` addition.
abbrev pub add32 : ℕ → ℕ → ℕ
add32 a b = (a + b) % 2 ^ 32

-- ROUNDDOWN and ROUNDUP of libs/defs.h at PGSIZE.
unfoldable pub round_down : ℕ → ℕ
round_down a = a - a % page_size

unfoldable pub round_up : ℕ → ℕ
unfolding round_down
round_up a = round_down (add32 a (page_size - 1))

-- The part of `mm_map` after its checks: the area is made, linked and stored.
abbrev pub map_new : Mm → Bool → Vma → Outcome ((Error ⊎ Vma) × Mm)
map_new mm false v = done (inl e_no_mem, mm)
map_new mm true v = do mm' ← insert_vma_struct mm v; done (inr v, mm')

-- Does the area that `find_vma` gave stand in the way?
abbrev pub in_the_way : Option Vma → ℕ → Bool
in_the_way none end = false
in_the_way (some v) end = ltb v.vm_start end

-- `mm_map`; `got` says whether `kmalloc` has memory for the area.
unfoldable pub mm_map : Option Mm → ℕ → ℕ → ℕ → Bool → Outcome ((Error ⊎ Vma) × Option Mm)
mm_map mm? addr len flags got =
    let start = round_down addr in
    let end = round_up (add32 addr len) in
    if not (user_access start end) then done (inl e_inval, mm?) else elim mm? [
      | none ↦ panic
      | some mm ↦
          let (found, mm') = find_vma mm start in
          if in_the_way found end then done (inl e_inval, some mm') else (do
            (r, mm'') ←
                map_new mm' got (record { vm_start = start; vm_end = end; vm_flags = flags })
            done (r, some mm''))
    ]

-- One round of `dup_mmap`: `got` and `copied` are the answers of `kmalloc` and `copy_range`.
abbrev pub dup_vma : Bool → Bool → Mm → Vma → Outcome (Bool × Mm)
dup_vma false copied to v = done (false, to)
dup_vma true copied to v = do to' ← insert_vma_struct to v; done (copied, to')

-- The walk of `dup_mmap`, along the list from its end; `true` for 0, `false` for -E_NO_MEM.
unfoldable pub dup_from : (got copied : Vma → Bool) → List Vma → Mm → Outcome (Bool × Mm)
dup_from got copied [] to = done (true, to)
dup_from got copied (v ∷ vs) to = dup_vma (got v) (copied v) to v >>= λ r.
    let rest = dup_from got copied vs r.1 in if r.0 then rest else done r

unfoldable pub dup_mmap : (got copied : Vma → Bool) → (to from : Mm) → Outcome (Bool × Mm)
dup_mmap got copied to from = dup_from got copied (reverse from.mmap_list) to

-- The tests that `user_mem_check` makes of the area `v` at the address `start`.
unfoldable pub allows : Bool → Vma → ℕ → Bool
allows write v start =
    not (ltb start v.vm_start)
    && not (bit_and v.vm_flags (if write then vm_write else vm_read) == 0)
    && not
        (write && not (bit_and v.vm_flags vm_stack == 0) && ltb start (add32 v.vm_start page_size))

-- The loop of `user_mem_check`; `none` when the fuel runs out.
unfoldable pub check_loop : ℕ → Bool → Mm → (start end : ℕ) → Option (Bool × Mm)
check_loop zero write mm start end = none
check_loop (suc fuel) write mm start end = elim (ltb start end) [
  | false ↦ some (true, mm)
  | true ↦ elim (find_vma mm start).0 [
    | none ↦ some (false, (find_vma mm start).1)
    | some v ↦ elim (allows write v start) [
      | false ↦ some (false, (find_vma mm start).1)
      | true ↦ check_loop fuel write (find_vma mm start).1 v.vm_end end
    ]
  ]
]

-- `user_mem_check`; without an `mm` the range has to lie in kernel memory.
unfoldable pub user_mem_check : Option Mm → (addr len : ℕ) → Bool → Option (Bool × Option Mm)
user_mem_check none addr len write = some (kern_access addr (add32 addr len), none)
user_mem_check (some mm) addr len write =
    let end = add32 addr len in
    if user_access addr end
    then Option.map (λ r. (r.0, some r.1)) (check_loop (end - addr + 1) write mm addr end)
    else some (false, some mm)
