-- ===== src/Vmm/Access.antt =====
-- `user_mem_check` against a check of every single address.
use mathlib.Core.Option
use os_exercises.Base.{
  ℕ, zero, suc, ◌+◌, ◌-◌, ◌≤◌, ◌<◌, ◌≡◌, ap, refl, Bool, true, false, not, bit_and, leb, ◌==◌, ◌||◌,
  ◌&&◌, none, some, List, inl, inr, arith, Bool-cases, Option-cases, ltb,
}
use os_exercises.Vmm.{
  Vma, Mm, find_in, allows, check_loop, user_mem_check, user_access, add32, vm_read, vm_write,
  vm_stack, page_size,
}
use os_exercises.Vmm.Areas.{IsValid, Chain, find_in_unique, find_in-mem}
use os_exercises.Vmm.Find.{find_vma_lem, find_vma_same, find_vma-IsValid}

-- May the address `a` be read, or written?
abbrev pub allowed : Bool → List Vma → ℕ → Bool
allowed write vs a = elim (find_in vs a) [ none ↦ false | some v ↦ allows write v a ]

-- Each of the `n` addresses from `start` on.
unfoldable pub all_allowed : Bool → List Vma → ℕ → ℕ → Bool
all_allowed write vs start zero = true
all_allowed write vs start (suc n) = allowed write vs start && all_allowed write vs (start + 1) n

allows_mono : (w : Bool) (v : Vma) (a b : ℕ) → allows w v a ≡ true → a ≤ b → allows w v b ≡ true
unfolding allows
allows_mono w v a b h le = ground arith

find_in-next :
    (vs : List Vma) (v : Vma) (a b : ℕ)
    → Chain 0 vs
    → find_in vs a ≡ some v
    → a ≤ b
    → b < v.vm_end
    → find_in vs b ≡ some v
find_in-next vs v a b c h le lt =
    let (member, holds) = find_in-mem vs a v h in find_in_unique 0 vs v b c member (ground arith)

end-after : (vs : List Vma) (v : Vma) (a : ℕ) → find_in vs a ≡ some v → a < v.vm_end
end-after vs v a h = ground (arith, find_in-mem vs a v h)

-- From an allowed address on, an area is allowed up to its end.
all_allowed-skip :
    (w : Bool) (vs : List Vma) (v : Vma) (n start : ℕ)
    → Chain 0 vs
    → find_in vs start ≡ some v
    → allows w v start ≡ true
    → all_allowed w vs start n ≡ all_allowed w vs v.vm_end (n - (v.vm_end - start))
unfolding all_allowed
all_allowed-skip w vs v zero start c h ok =
    let none_left : 0 ≡ 0 - (v.vm_end - start) = omega arith in
    ap (λ k. all_allowed w vs v.vm_end k) none_left
all_allowed-skip w vs v (suc n) start c h ok = elim (Bool-cases (ltb (start + 1) v.vm_end)) [
  | inl e ↦
      let left : n - (v.vm_end - (start + 1)) ≡ suc n - (v.vm_end - start) = ground arith in
      let next = find_in-next vs v start (start + 1) c h (omega arith) (ground arith) in
      let still = allows_mono w v start (start + 1) ok (omega arith) in
      ground (arith, all_allowed-skip w vs v n (start + 1) c next still)
  | inr e ↦
      let at_end : start + 1 ≡ v.vm_end = ground (arith, end-after vs v start h) in
      let left : n ≡ suc n - (v.vm_end - start) = omega arith in ground arith
]

check_loop-all_allowed :
    (fuel : ℕ) (w : Bool) {mm : Mm} (start end : ℕ)
    → IsValid mm
    → end - start < fuel
    → Option.map (λ r. r.0) (check_loop fuel w mm start end)
      ≡ some (all_allowed w mm.mmap_list start (end - start))
unfolding check_loop all_allowed
check_loop-all_allowed zero w start end v h = absurd (omega arith)
check_loop-all_allowed (suc fuel) w {mm} start end v h = elim (Bool-cases (ltb start end)) [
  | inr e ↦ let left : end - start ≡ 0 = ground arith in ground arith
  | inl e ↦
      let left : end - start ≡ suc (end - start - 1) = ground arith in
      elim (Option-cases (find_in mm.mmap_list start)) [
        | inl unmapped ↦ ground (arith, find_vma_lem start v)
        | inr (u, found) ↦
            let far = end-after mm.mmap_list u start found in
            let same = find_vma_same mm start in
            let next = check_loop-all_allowed fuel w u.vm_end end (find_vma-IsValid start v) in
            let skip = all_allowed-skip w mm.mmap_list u (end - start) start v.chain found in
            ground (arith, find_vma_lem start v, far, same, next, skip)
      ]
]

-- What the flags of an area permit at the address `a` of it.
abbrev pub permits : Bool → Vma → ℕ → Bool
permits false v a = not (bit_and v.vm_flags vm_read == 0)
permits true v a =
    not (bit_and v.vm_flags vm_write == 0)
    && (bit_and v.vm_flags vm_stack == 0 || leb (add32 v.vm_start page_size) a)

abbrev pub permitted : Bool → List Vma → ℕ → Bool
permitted write vs a = elim (find_in vs a) [ none ↦ false | some v ↦ permits write v a ]

-- Each of the `n` addresses from `start` on.
unfoldable pub all_permitted : Bool → List Vma → ℕ → ℕ → Bool
all_permitted write vs start zero = true
all_permitted write vs start (suc n) =
    permitted write vs start && all_permitted write vs (start + 1) n

allows-permits : (w : Bool) (v : Vma) (a : ℕ) → v.vm_start ≤ a → allows w v a ≡ permits w v a
unfolding allows
allows-permits true v a h = ground arith
allows-permits false v a h = ground arith

allowed-permitted : (w : Bool) (vs : List Vma) (a : ℕ) → allowed w vs a ≡ permitted w vs a
allowed-permitted w vs a = elim (Option-cases (find_in vs a)) [
  | inl unmapped ↦ ground arith
  | inr (v, found) ↦
      let (member, holds) = find_in-mem vs a v found in
      let same = allows-permits w v a (ground arith) in ground (arith, same)
]

all_allowed-all_permitted :
    (w : Bool) (vs : List Vma) (start n : ℕ) → all_allowed w vs start n ≡ all_permitted w vs start n
unfolding all_allowed all_permitted
all_allowed-all_permitted w vs start zero = refl
all_allowed-all_permitted w vs start (suc n) =
    rw (allowed-permitted w vs start, all_allowed-all_permitted w vs (start + 1) n) refl

-- For a process whose areas are in order, `user_mem_check` always answers, and it answers yes
-- exactly when the range is a range of user memory (not empty, not wrapping round) every address of
-- which lies in an area that may be read, or, for a write, written and is no guard page of a stack.
pub user_mem_check-exact :
    {mm : Mm} (addr len : ℕ) (write : Bool)
    → IsValid mm
    → Option.map (λ r. r.0) (user_mem_check (some mm) addr len write)
      ≡ some (
          user_access addr (add32 addr len)
          && all_permitted write mm.mmap_list addr (add32 addr len - addr))
unfolding user_mem_check
user_mem_check-exact {mm} addr len w v =
    let end = add32 addr len in
    let run = check_loop-all_allowed (end - addr + 1) w addr end v (omega arith) in
    let same = all_allowed-all_permitted w mm.mmap_list addr (end - addr) in
    ground (arith, run, same)
