-- ===== src/Fork/Steady.antt =====
-- What copy_fs and copy_mm of kern/process/proc.c leave as it is.
use os_exercises.Base.{
  Outcome-cases, ℕ, ◌≡◌, ◌≢◌, refl, ap, ◌∙◌, inl, inr, Bool, true, false, arith, ◌==◌, bit_and,
  Bool-cases, Option-cases, done, Outcome,
}
use os_exercises.Process.{World}
use os_exercises.Fork.Branches.{copy_mm-dup_mm}
use os_exercises.Fork.{
  Answers, clone_vm, clone_fs, share_fs, new_fs, copy_fs, fill_table, share_mm, mm_create,
  mm_destroy, setup_pgdir, put_pgdir, dup_mm, copy_mm,
}

-- Only the task of `p` and the memory may differ.
pub record Steady (p : ℕ) (w w' : World) : Type 0 where
  pub links : w'.links ≡ w.links
  pub kernel : w'.kernel ≡ w.kernel
  pub hash_list : w'.hash_list ≡ w.hash_list
  pub cursor : w'.cursor ≡ w.cursor
  pub tasks : (q : ℕ) → q ≢ p → w'.tasks q ≡ w.tasks q

pub Steady-trans : {p : ℕ} {u v w : World} → Steady p u v → Steady p v w → Steady p u w
Steady-trans s t = record {
  links = t.links ∙ s.links;
  kernel = t.kernel ∙ s.kernel;
  hash_list = t.hash_list ∙ s.hash_list;
  cursor = t.cursor ∙ s.cursor;
  tasks = λ q ne. t.tasks q ne ∙ s.tasks q ne;
}

Steady-refl : (p : ℕ) (w : World) → Steady p w w
Steady-refl p w = record {
  links = refl;
  kernel = refl;
  hash_list = refl;
  cursor = refl;
  tasks = λ q ne. refl;
}

share_fs-Steady : (f p : ℕ) (w : World) → Steady p w (share_fs f p w)
share_fs-Steady f p w = record {
  links = refl;
  kernel = refl;
  hash_list = refl;
  cursor = refl;
  tasks = λ q ne. ground arith;
}

new_fs-Steady : (f p : ℕ) (w : World) → Steady p w (new_fs f w)
new_fs-Steady f p w = record {
  links = refl;
  kernel = refl;
  hash_list = refl;
  cursor = refl;
  tasks = λ q ne. refl;
}

share_mm-Steady : (m p : ℕ) (w : World) → Steady p w (share_mm m p w)
share_mm-Steady m p w = record {
  links = refl;
  kernel = refl;
  hash_list = refl;
  cursor = refl;
  tasks = λ q ne. ground arith;
}

new_mm-Steady : (m p : ℕ) (w : World) → Steady p w (setup_pgdir m (mm_create m w))
new_mm-Steady m p w = record {
  links = refl;
  kernel = refl;
  hash_list = refl;
  cursor = refl;
  tasks = λ q ne. refl;
}

no_mm-Steady : (m p : ℕ) (w : World) → Steady p w (mm_destroy m w)
no_mm-Steady m p w = record {
  links = refl;
  kernel = refl;
  hash_list = refl;
  cursor = refl;
  tasks = λ q ne. refl;
}

no_pgdir-Steady : (m p : ℕ) (w : World) → Steady p w (mm_destroy m (put_pgdir m w))
no_pgdir-Steady m p w = record {
  links = refl;
  kernel = refl;
  hash_list = refl;
  cursor = refl;
  tasks = λ q ne. refl;
}

mm_create-Steady : (m p : ℕ) (w : World) → Steady p w (mm_create m w)
mm_create-Steady m p w = record {
  links = refl;
  kernel = refl;
  hash_list = refl;
  cursor = refl;
  tasks = λ q ne. refl;
}

dup_mm-Steady : (a : Answers) (m p : ℕ) (w : World) → Steady p w (dup_mm a m p w).0
dup_mm-Steady a m p w =
    let new = setup_pgdir m (mm_create m w) in
    elim (Bool-cases a.setup_pgdir) [
      | inl pgdir ↦ elim (Bool-cases a.dup_mmap) [
        | inl copied ↦
            rw (pgdir, copied)
              (Steady-trans {v = new} (new_mm-Steady m p w) (share_mm-Steady m p new))
        | inr e ↦
            rw (pgdir, e) (Steady-trans {v = new} (new_mm-Steady m p w) (no_pgdir-Steady m p new))
      ]
      | inr e ↦ rw e (
          Steady-trans {v = mm_create m w} (mm_create-Steady m p w)
            (no_mm-Steady m p (mm_create m w)))
    ]

along :
    {p : ℕ} {w : World} (v : World) (b : Bool) (r : World × Bool)
    → r ≡ (v, b)
    → Steady p w v
    → Steady p w r.0
along v b r e t = rw (ap (λ x. x.0) e) t

pub copy_mm-Steady : (a : Answers) (fl p : ℕ) (w : World) → Steady p w (copy_mm a fl p w).0
unfolding copy_mm
copy_mm-Steady a fl p w = elim (Option-cases (w.tasks w.kernel.current).mm) [
  | inl e ↦ along w true (copy_mm a fl p w) (rw (copy_mm, e) refl) (Steady-refl p w)
  | inr (old, e) ↦ elim (Bool-cases (bit_and fl clone_vm == 0)) [
    | inl own ↦ elim (Option-cases a.mm) [
      | inl no_mm ↦
          along w false (copy_mm a fl p w) (rw (copy_mm, e, own, no_mm) refl) (Steady-refl p w)
      | inr (m, new) ↦
          along (dup_mm a m p w).0 (dup_mm a m p w).1 (copy_mm a fl p w)
            (copy_mm-dup_mm a fl p old m w e own new) (dup_mm-Steady a m p w)
    ]
    | inr shared ↦
        along (share_mm old p w) true (copy_mm a fl p w) (rw (copy_mm, e, shared) refl)
          (share_mm-Steady old p w)
  ]
]

abbrev copied : World → Bool → Outcome (World × Bool)
copied w ok = done (w, ok)

reached :
    {p : ℕ} (w v w' : World) (b ok : Bool)
    → copied v b ≡ copied w' ok
    → Steady p w v
    → Steady p w w'
reached w v w' b ok h t = let e : v ≡ w' = cc h in rw (← e) t

pub copy_fs-Steady :
    (a : Answers) (fl p : ℕ) (w w' : World) (ok : Bool)
    → copy_fs a fl p w ≡ done (w', ok)
    → Steady p w w'
unfolding copy_fs
copy_fs-Steady a fl p w w' ok h = elim (Option-cases (w.tasks w.kernel.current).filesp) [
  | inl e ↦ let never = rw (copy_fs, e) at h in absurd (ground (arith, never))
  | inr (old, e) ↦ elim (Bool-cases (bit_and fl clone_fs == 0)) [
    | inl own ↦ elim (Option-cases a.filesp) [
      | inl no_table ↦
          reached w w w' false ok (rw (copy_fs, e, own, no_table) at h) (Steady-refl p w)
      | inr (f, new) ↦ elim (Outcome-cases (fill_table a (w.files_count old))) [
        | inr none_left ↦
            let never = rw (copy_fs, e, own, new, none_left) at h in absurd (ground (arith, never))
        | inl (to, held) ↦
            reached w (share_fs f p (new_fs f w)) w' true ok (rw (copy_fs, e, own, new, held) at h)
              (Steady-trans {v = new_fs f w} (new_fs-Steady f p w)
                (share_fs-Steady f p (new_fs f w)))
      ]
    ]
    | inr shared ↦
        reached w (share_fs old p w) w' true ok (rw (copy_fs, e, shared) at h)
          (share_fs-Steady old p w)
  ]
]
