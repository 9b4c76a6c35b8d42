-- ===== src/Vmm/Dup.antt =====
-- `dup_mmap`: a copy of the address space has the same areas.
use os_exercises.Base.{
  ℕ, ◌+◌, ◌≡◌, refl, Bool, true, false, List, [], ◌∷◌, ◌++◌, reverse, arith, if◌then◌else◌, length,
  Outcome, done, panic, ◌>>=◌,
}
use mathlib.Core.List.{reverse-cons}
use os_exercises.Vmm.{
  Vma, Mm, check_vma_overlap, insert_after, insert_vma_struct, dup_vma, dup_from, dup_mmap,
}
use os_exercises.Vmm.Areas.{IsValid, Chain}

module _ (got copied : Vma → Bool) where
  dup_from-append :
      (us vs : List Vma) (to : Mm) {to' : Mm}
      → dup_from got copied us to ≡ done (true, to')
      → dup_from got copied (us ++ vs) to ≡ dup_from got copied vs to'
  unfolding dup_from
  dup_from-append [] vs to h = ground arith
  dup_from-append (u ∷ us) vs to {to'} h =
      after (λ t. dup_from-append us vs t) (dup_vma (got u) (copied u) to u) h
    where
      after :
          ((t : Mm)
            → dup_from got copied us t ≡ done (true, to')
            → dup_from got copied (us ++ vs) t ≡ dup_from got copied vs to')
          → (r : Outcome (Bool × Mm))
          → (r >>= λ r. let rest = dup_from got copied us r.1 in if r.0 then rest else done r)
            ≡ done (true, to')
          → (r >>= λ r.
              let rest = dup_from got copied (us ++ vs) r.1 in if r.0 then rest else done r)
            ≡ dup_from got copied vs to'
      after ih panic h = cc
      after ih (done (true, t)) h = ih t h
      after ih (done (false, t)) h = cc

-- The `mm` with the areas `vs`, `n` of them.
abbrev holding : Mm → List Vma → ℕ → Mm
holding to vs n = record to { mmap_list = vs; map_count = n }

insert-front :
    (to : Mm) (lo n : ℕ) (v : Vma) (vs : List Vma)
    → Chain lo (v ∷ vs)
    → insert_vma_struct (holding to vs n) v ≡ done (holding to (v ∷ vs) (n + 1))
unfolding insert_vma_struct insert_after check_vma_overlap
insert-front to lo n v [] c = ground arith
insert-front to lo n v (x ∷ xs) c = ground arith

module _ (got copied : Vma → Bool) (all_got : (v : Vma) → got v ≡ true)
    (all_copied : (v : Vma) → copied v ≡ true) where
  dup_from-reverse :
      (to : Mm) (lo n : ℕ) (vs : List Vma)
      → Chain lo vs
      → dup_from got copied (reverse vs) (holding to [] n)
        ≡ done (true, holding to vs (n + length vs))
  unfolding dup_from
  dup_from-reverse to lo n [] c = ground arith
  dup_from-reverse to lo n (v ∷ vs) c =
      let later = dup_from-reverse to v.vm_end n vs c.2 in
      let front = insert-front to lo (n + length vs) v vs c in
      rw (reverse-cons, dup_from-append got copied (reverse vs) (v ∷ []) (holding to [] n) later)
        (ground (arith, all_got v, all_copied v, front))

  -- With memory enough, `dup_mmap` into an address space that has no areas ends with success, and
  -- leaves there the areas of the original: same bounds, same flags, same order.
  pub dup_mmap-copies :
      (to : Mm) {from : Mm}
      → IsValid from
      → to.mmap_list ≡ []
      → to.map_count ≡ 0
      → (to' : Mm) × (dup_mmap got copied to from ≡ done (true, to'))
        × (to'.mmap_list ≡ from.mmap_list)
        × (to'.map_count ≡ from.map_count)
  unfolding dup_mmap
  dup_mmap-copies to {from} ok empty zero_count = (
    holding to from.mmap_list (0 + length from.mmap_list),
    ground (arith, dup_from-reverse to 0 0 from.mmap_list ok.chain),
    refl,
    omega (arith, ok.count),
  )
