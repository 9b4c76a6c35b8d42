-- ===== src/Vmm/Insert.antt =====
-- `insert_vma_struct`: when it succeeds, and what the list holds then.
use mathlib.Core.Path.{subst}
use os_exercises.Base.{
  ℕ, suc, ◌+◌, ◌≤◌, ◌<◌, ◌≡◌, refl, Option, none, some, List, [], ◌∷◌, inl, inr, ◌↔◌, arith,
  Bool-cases, length, Any, All, ltb, if◌then◌else◌, done, assert, >>=-eq-done,
}
use os_exercises.Vmm.{
  Vma, Mm, contains, find_in, check_prev, check_vma_overlap, insert_after, insert_vma_struct,
}
use os_exercises.Vmm.Areas.{IsValid, Chain, CacheIn, Apart}

-- Behind `prev` the addresses from `lo` on are free.
abbrev Behind : Option Vma → ℕ → Type 0
Behind none lo = lo ≡ 0
Behind (some p) lo = (lo ≡ p.vm_end) × (p.vm_start < p.vm_end)

-- What the walk leaves: an ordered list that finds the new area at its addresses.
record Inserted (lo : ℕ) (vs : List Vma) (v : Vma) (ws : List Vma) : Type 0 where
  chain : Chain lo ws
  keeps : (w : Vma) → Any (λ u. u ≡ w) vs → Any (λ u. u ≡ w) ws
  count : length ws ≡ suc (length vs)
  room : lo ≤ v.vm_start
  apart : All (Apart v) vs
  finds : (a : ℕ) → find_in ws a ≡ (if contains v a then some v else find_in vs a)

Apart-behind : (lo : ℕ) (v : Vma) (vs : List Vma) → Chain lo vs → v.vm_end ≤ lo → All (Apart v) vs
Apart-behind lo v [] c h = tt
Apart-behind lo v (w ∷ vs) c h = (inl (omega arith), Apart-behind w.vm_end v vs c.2 (omega arith))

le_of_check_vma_overlap : (v w : Vma) → check_vma_overlap v w ≡ done tt → v.vm_end ≤ w.vm_start
unfolding check_vma_overlap
le_of_check_vma_overlap v w h = ground arith

module _ (v : Vma) (full : v.vm_start < v.vm_end) where
  check_prev-done :
      (prev : Option Vma) (lo : ℕ) → Behind prev lo → lo ≤ v.vm_start → check_prev prev v ≡ done tt
  unfolding check_vma_overlap
  check_prev-done none lo b h = refl
  check_prev-done (some p) lo b h = ground arith

  le_of_check_prev :
      (prev : Option Vma) (lo : ℕ) → Behind prev lo → check_prev prev v ≡ done tt → lo ≤ v.vm_start
  unfolding check_vma_overlap
  le_of_check_prev none lo b h = omega arith
  le_of_check_prev (some p) lo b h = ground arith

  Inserted-here :
      (lo : ℕ) (vs : List Vma) → lo ≤ v.vm_start → Chain v.vm_end vs → Inserted lo vs v (v ∷ vs)
  unfolding find_in
  Inserted-here lo vs h c = record {
    chain = (h, full, c);
    keeps = λ w m. inr m;
    count = refl;
    room = h;
    apart = Apart-behind v.vm_end v vs c (omega arith);
    finds = λ a. refl;
  }

  Inserted-later :
      (lo : ℕ) (x : Vma) (xs rest : List Vma)
      → Chain lo (x ∷ xs)
      → Inserted x.vm_end xs v rest
      → Inserted lo (x ∷ xs) v (x ∷ rest)
  unfolding find_in
  Inserted-later lo x xs rest c i = record {
    chain = (c.0, c.1, i.chain);
    keeps = λ w. elim [ inl e ↦ inl e | inr m ↦ inr (i.keeps w m) ];
    count = omega (arith, i.count);
    room = omega (arith, i.room);
    apart = (inr i.room, i.apart);
    finds = λ a. ground (arith, i.finds a, i.room);
  }

  insert_after-Inserted :
      (prev : Option Vma) (lo : ℕ) (vs ws : List Vma)
      → Behind prev lo
      → Chain lo vs
      → insert_after prev vs v ≡ done ws
      → Inserted lo vs v ws
  unfolding insert_after
  insert_after-Inserted prev lo [] ws b c h =
      let (u, ok, e) = >>=-eq-done (check_prev prev v) _ h in
      subst (Inserted lo [] v) (cc e) (Inserted-here lo [] (le_of_check_prev prev lo b (cc ok)) tt)
  insert_after-Inserted prev lo (x ∷ xs) ws b c h = elim (Bool-cases (ltb v.vm_start x.vm_start)) [
    | inl e ↦
        let (u, before, h') = >>=-eq-done (check_prev prev v) _ (rw e at h) in
        let (u', behind, e') = >>=-eq-done (check_vma_overlap v x) _ h' in
        let at_start = le_of_check_prev prev lo b (cc before) in
        let in_order = le_of_check_vma_overlap v x (cc behind) in
        subst (Inserted lo (x ∷ xs) v) (cc e')
          (Inserted-here lo (x ∷ xs) at_start (in_order, c.1, c.2))
    | inr e ↦
        let (rest, ok, e') = >>=-eq-done (insert_after (some x) xs v) _ (rw e at h) in
        subst (Inserted lo (x ∷ xs) v) (cc e') (
          Inserted-later lo x xs rest c
            (insert_after-Inserted (some x) x.vm_end xs rest (refl, c.1) c.2 ok))
  ]

  insert_after-done :
      (prev : Option Vma) (lo : ℕ) (vs : List Vma)
      → Behind prev lo
      → Chain lo vs
      → lo ≤ v.vm_start
      → All (Apart v) vs
      → (ws : List Vma) × (insert_after prev vs v ≡ done ws)
  unfolding insert_after check_vma_overlap
  insert_after-done prev lo [] b c h a = (v ∷ [], ground (arith, check_prev-done prev lo b h))
  insert_after-done prev lo (x ∷ xs) b c h a = elim (Bool-cases (ltb v.vm_start x.vm_start)) [
    | inl e ↦ (v ∷ x ∷ xs, ground (arith, check_prev-done prev lo b h))
    | inr e ↦
        let (rest, r) = insert_after-done (some x) x.vm_end xs (refl, c.1) c.2 (ground arith) a.1 in
        (x ∷ rest, ground arith)
  ]

CacheIn-Inserted :
    {lo : ℕ} {vs ws : List Vma} {v : Vma} (cache : Option Vma)
    → Inserted lo vs v ws
    → CacheIn vs cache
    → CacheIn ws cache
CacheIn-Inserted none i m = tt
CacheIn-Inserted (some w) i m = i.keeps w m

-- A success of `insert_vma_struct` is a success of its walk over an area that is not empty.
insert-Inserted :
    (mm mm' : Mm) (v : Vma)
    → IsValid mm
    → insert_vma_struct mm v ≡ done mm'
    → (ws : List Vma) × (v.vm_start < v.vm_end)
      × Inserted 0 mm.mmap_list v ws
      × (record mm { mmap_list = ws; map_count = mm.map_count + 1 } ≡ mm')
unfolding insert_vma_struct
insert-Inserted mm mm' v ok h =
    let (u, nonempty, h') = >>=-eq-done (assert (ltb v.vm_start v.vm_end)) _ h in
    let (ws, walk, e) = >>=-eq-done (insert_after none mm.mmap_list v) _ h' in
    let full : v.vm_start < v.vm_end = ground arith in
    (ws, full, insert_after-Inserted v full none 0 mm.mmap_list ws refl ok.chain walk, cc e)

-- In a valid `mm`, `insert_vma_struct` accepts exactly the areas that are not empty and that
-- overlap no area of the list.
pub insert-accepts :
    {mm : Mm} (v : Vma)
    → IsValid mm
    → ((mm' : Mm) × (insert_vma_struct mm v ≡ done mm'))
      ↔ ((v.vm_start < v.vm_end) × All (Apart v) mm.mmap_list)
unfolding insert_vma_struct
insert-accepts {mm} v ok = (
  λ (mm', h). let (ws, full, i, e) = insert-Inserted mm mm' v ok h in (full, i.apart),
  λ (full, apart).
      let (ws, e) =
        insert_after-done v full none 0 mm.mmap_list refl ok.chain (omega arith) apart in
      (record mm { mmap_list = ws; map_count = mm.map_count + 1 }, ground arith),
)

-- `mm'` is `mm` with the area `v` added.
abbrev pub Extends : Mm → Vma → Mm → Type 0
Extends mm v mm' =
    IsValid mm'
    × (mm'.map_count ≡ mm.map_count + 1)
    × ((a : ℕ)
        → find_in mm'.mmap_list a ≡ (if contains v a then some v else find_in mm.mmap_list a))

-- In a valid `mm`, an area that `insert_vma_struct` accepts is found at its addresses afterwards,
-- every other address is found as before, and the invariant is kept: order, no overlap, the count
-- of areas.
pub insert-finds :
    {mm mm' : Mm} (v : Vma) → IsValid mm → insert_vma_struct mm v ≡ done mm' → Extends mm v mm'
insert-finds {mm} {mm'} v ok h =
    let (ws, full, i, e) = insert-Inserted mm mm' v ok h in
    let valid : IsValid (record mm { mmap_list = ws; map_count = mm.map_count + 1 }) = record {
      chain = i.chain;
      count = omega (arith, ok.count, i.count);
      cache = CacheIn-Inserted mm.mmap_cache i ok.cache;
    } in
    subst (Extends mm v) e (valid, refl, i.finds)
