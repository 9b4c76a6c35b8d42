-- ===== src/Files/Trace.antt =====
-- Any sequence of calls on a shared table.
use os_exercises.Base.{ℕ, zero, suc, ◌≤◌, ◌<◌, ◌≡◌, refl, arith}
use os_exercises.Files.{File, Inodes, nentry, fd_array_init}
use os_exercises.Files.Valid.{IsValid, users}
use os_exercises.Files.World.{World}

users_fresh : (n m : ℕ) (old : ℕ → File) → m ≤ nentry → users n (fd_array_init old) m ≡ 0
unfolding fd_array_init
users_fresh n zero old h = refl
users_fresh n (suc m) old h = ground (arith, users_fresh n m old (omega arith))

-- A new table that `fd_array_init` has filled is consistent, with no entry in use, once a process
-- has it.
pub fd_array_init-IsValid :
    (old : ℕ → File) (inodes : Inodes) (files_count : ℕ)
    → 0 < files_count
    → IsValid
        (λ n. (inodes n).opens)
        (λ n. (inodes n).refs)
        (λ i. 0)
        (record { fd_array = fd_array_init old; files_count = files_count; inodes = inodes })
fd_array_init-IsValid old inodes files_count h = record {
  entries = λ i lt. unfold fd_array_init in ground arith;
  opened = λ n. omega (arith, users_fresh n nentry old (omega arith));
  counted = λ n. omega (arith, users_fresh n nentry old (omega arith));
  shared = h;
}
