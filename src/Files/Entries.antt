-- ===== src/Files/Entries.antt =====
-- The steps on one entry of the table: on a consistent table none of their assertions fails, and
-- the table stays consistent.
use mathlib.Core.Path.{subst}
use os_exercises.Base.{
  ℕ, ◌+◌, ◌-◌, ◌<◌, ◌≡◌, ◌⊎◌, refl, sym, true, Option, none, some, arith, ◌==◌, is_some, Bool-cases,
  inl, inr, Outcome, done,
}
use os_exercises.Files.{
  Status, fd_none, fd_init, fd_opened, fd_closed, File, Files, nentry, put_file, put_inode,
  vfs_close, fd_array_free, fd_array_acquire, fd_array_release, fd_array_close,
}
use os_exercises.Files.Valid.{
  Counted, uses, users-uses, put_count, IsValid, change-IsValid, put_count-IsValid, Frame,
  change-Frame,
}

-- A call that ends, on a consistent table, in a consistent table.
abbrev pub Ends : Files → (opens refs held : ℕ → ℕ) → Outcome Files → Type 0
Ends s opens refs held m = (s' : Files) × (m ≡ done s') × IsValid opens refs held s' × Frame s s'

pub opened-Counted :
    (f : File) (k : ℕ)
    → f.status ≡ fd_opened
    → Counted f.status k f
    → (f.open_count ≡ k + 1) × ((n : ℕ) × (f.node ≡ some n))
opened-Counted f k e c =
    let (count, held) = subst (λ s. Counted s k f) e c in (count, node f.node held)
  where
    node : (o : Option ℕ) → is_some o ≡ true → (n : ℕ) × (o ≡ some n)
    node none e = cc
    node (some n) e = (n, refl)

-- An entry that a call uses is open, or closed and kept for the calls that use it.
pub used-Counted :
    (f : File) (k : ℕ)
    → 0 < k
    → Counted f.status k f
    → ((f.status ≡ fd_opened) × (f.open_count ≡ k + 1))
      ⊎ ((f.status ≡ fd_closed) × (f.open_count ≡ k) × ((n : ℕ) × (f.node ≡ some n)))
used-Counted f k h c = by_status f.status refl c
  where
    node : (o : Option ℕ) → is_some o ≡ true → (n : ℕ) × (o ≡ some n)
    node none e = cc
    node (some n) e = (n, refl)

    by_status :
        (st : Status)
        → f.status ≡ st
        → Counted st k f
        → ((f.status ≡ fd_opened) × (f.open_count ≡ k + 1))
          ⊎ ((f.status ≡ fd_closed) × (f.open_count ≡ k) × ((n : ℕ) × (f.node ≡ some n)))
    by_status fd_none e c = absurd (omega (arith, c.1))
    by_status fd_init e c = absurd (omega (arith, c.1))
    by_status fd_opened e c = inl (e, c.0)
    by_status fd_closed e c = inr (e, c.0, node f.node c.2)

-- The table after the last use of the entry `i`, which holds the inode `n`.
abbrev pub freed : ℕ → ℕ → Files → Files
freed i n s =
    let c = s.inodes n in
    put_file i (record (s.fd_array i) { status = fd_none; open_count = 0 })
      (record s {
        inodes = put_inode n (record { refs = c.refs - 1; opens = c.opens - 1 }) s.inodes;
      })

pub free_last :
    (i n : ℕ) (s : Files)
    → (s.fd_array i).status ≡ fd_closed
    → (s.fd_array i).open_count ≡ 0
    → (s.fd_array i).node ≡ some n
    → 0 < (s.inodes n).opens
    → 0 < (s.inodes n).refs
    → fd_array_free i s ≡ done (freed i n s)
unfolding fd_array_free vfs_close
free_last i n s closed count node opens refs = ground arith

module _ {opens refs held : ℕ → ℕ} {s : Files} (i : ℕ) (v : IsValid opens refs held s)
    (lt : i < nentry) where
  abbrev f : File
  f = s.fd_array i

  pub holds : (n : ℕ) → uses n f ≡ 1 → (0 < (s.inodes n).opens) × (0 < (s.inodes n).refs)
  holds n u = omega (arith, users-uses n s.fd_array i nentry lt, v.opened n, v.counted n)

  -- An entry that changes its count and its status, and keeps its inode.
  pub kept-IsValid :
      (k : ℕ) (g : File)
      → g.fd ≡ f.fd
      → Counted g.status k g
      → ((n : ℕ) → uses n g ≡ uses n f)
      → IsValid opens refs (put_count held i k) (put_file i g s)
  kept-IsValid k g fd c same =
      change-IsValid i k (put_file i g s) v lt (λ j ne. ground arith)
        (ground (arith, v.entries i lt)) (λ n. ground (arith, same n)) refl

  freed-IsValid :
      (n : ℕ)
      → f.node ≡ some n
      → uses n f ≡ 1
      → (g : File) → g.fd ≡ f.fd
      → IsValid opens refs (put_count held i 0) (freed i n (put_file i g s))
  freed-IsValid n node u g fd =
      let positive = holds n u in
      change-IsValid i 0 (freed i n (put_file i g s)) v lt (λ j ne. ground arith)
        (ground (arith, v.entries i lt)) (λ m. ground (arith, positive)) refl

  pub acquire-Ends :
      f.status ≡ fd_opened
      → Ends s opens refs (put_count held i (held i + 1)) (fd_array_acquire i s)
  unfolding fd_array_acquire
  acquire-Ends e =
      let (count, node) = opened-Counted f (held i) e (v.entries i lt).1 in
      let g = record f { open_count = f.open_count + 1 } in
      (
        put_file i g s,
        ground arith,
        kept-IsValid (held i + 1) g refl
            (subst (λ st. Counted st (held i + 1) g) (sym e) (omega (arith, count), ground arith))
            (λ n. refl),
        change-Frame i s (put_file i g s) (rw e refl) (λ j ne. ground arith),
      )

  pub release-Ends :
      0 < held i → Ends s opens refs (put_count held i (held i - 1)) (fd_array_release i s)
  unfolding fd_array_release
  release-Ends h =
      let g = record f { open_count = f.open_count - 1 } in
      elim (used-Counted f (held i) h (v.entries i lt).1) [
        | inl (e, count) ↦
            let (_, node) = opened-Counted f (held i) e (v.entries i lt).1 in
            (
              put_file i g s,
              ground arith,
              kept-IsValid (held i - 1) g refl
                  (subst (λ st. Counted st (held i - 1) g) (sym e)
                    (omega (arith, count), ground arith))
                  (λ n. refl),
              change-Frame i s (put_file i g s) (rw e refl) (λ j ne. ground arith),
            )
        | inr (e, count, (n, node)) ↦ elim (Bool-cases (held i - 1 == 0)) [
          | inl last ↦
              let one : uses n f ≡ 1 = ground arith in
              let zero_left : held i - 1 ≡ 0 = ground arith in
              let positive = holds n one in
              let run =
                free_last i n (put_file i g s) (ground arith) (ground arith) (ground arith)
                  (ground arith) (ground arith) in
              (
                freed i n (put_file i g s),
                ground (arith, run),
                rw zero_left (freed-IsValid n node one g refl),
                change-Frame i s (freed i n (put_file i g s)) (rw e refl) (λ j ne. ground arith),
              )
          | inr more ↦ (
            put_file i g s,
            ground arith,
            kept-IsValid (held i - 1) g refl
                (subst (λ st. Counted st (held i - 1) g) (sym e)
                  (omega (arith, count), ground arith, ground arith))
                (λ n. refl),
            change-Frame i s (put_file i g s) (rw e refl) (λ j ne. ground arith),
          )
        ]
      ]

  pub close-Ends : f.status ≡ fd_opened → Ends s opens refs held (fd_array_close i s)
  unfolding fd_array_close
  close-Ends e =
      let (count, (n, node)) = opened-Counted f (held i) e (v.entries i lt).1 in
      let g = record f { status = fd_closed; open_count = f.open_count - 1 } in
      elim (Bool-cases (held i == 0)) [
        | inl last ↦
            let one : uses n f ≡ 1 = ground arith in
            let none_left : 0 ≡ held i = ground arith in
            let positive = holds n one in
            let run =
              free_last i n (put_file i g s) (ground arith) (ground arith) (ground arith)
                (ground arith) (ground arith) in
            (
              freed i n (put_file i g s),
              ground (arith, run),
              put_count-IsValid i (
                  subst (λ k. IsValid opens refs (put_count held i k) (freed i n (put_file i g s)))
                    none_left (freed-IsValid n node one g refl)),
              change-Frame i s (freed i n (put_file i g s)) (rw e refl) (λ j ne. ground arith),
            )
        | inr more ↦ (
          put_file i g s,
          ground arith,
          put_count-IsValid i (
              kept-IsValid (held i) g refl (omega (arith, count), ground arith, ground arith)
                (λ m. ground arith)),
          change-Frame i s (put_file i g s) (rw e refl) (λ j ne. ground arith),
        )
      ]
