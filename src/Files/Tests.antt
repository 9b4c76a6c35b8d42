-- ===== src/Files/Tests.antt =====
-- A table of open files that two processes use.
use os_exercises.Base.{
  ℕ, ◌<◌, ◌≡◌, ◌⊎◌, true, false, none, List, [], ◌∷◌, arith, ◌==◌, if◌then◌else◌, inl, inr, done,
  Error, e_max_open,
}
use os_exercises.Files.{
  File, fd_none, Inodes, Files, nentry, inode_inc, no_fd, is_none, fd_array_init, fd_array_alloc,
}
use os_exercises.Files.Valid.{IsValid}
use os_exercises.Files.Alloc.{claimed, Taken, fd_array_alloc-lowest}
use os_exercises.Files.World.{
  Call, opening, found, sized, closing, duplicating, beginning, ending, World, not_opening,
}
use os_exercises.Files.Trace.{fd_array_init-IsValid}

abbrev no_file : ℕ → File
no_file i = record {
  status = fd_none;
  readable = false;
  writable = false;
  fd = 7;
  pos = 0;
  node = none;
  open_count = 3;
}

abbrev inodes : Inodes
inodes n = record { refs = if n == 5 then 1 else 0; opens = 0 }

abbrev new_table : Files
new_table = record { fd_array = fd_array_init no_file; files_count = 2; inodes = inodes }

abbrev new_world : World
new_world = record { files = new_table; held = λ i. 0; pending = λ i. not_opening; left = λ n. 0 }

-- Every name leads to the inode 5.
abbrev open_five : ℕ → Inodes → (Error ⊎ ℕ) × Inodes
open_five flags ns = (inr 5, inode_inc 5 ns)

new_table-IsValid : IsValid (λ n. (inodes n).opens) (λ n. (inodes n).refs) (λ i. 0) new_table
new_table-IsValid = fd_array_init-IsValid no_file inodes 2 (omega arith)

-- A second file is opened at its end while the first one is looked up; the first is closed while it
-- is read, and its entry comes free when the read ends.
abbrev calls : List Call
calls =
    opening 0
    ∷ opening 0x20
    ∷ found 1
    ∷ found 0
    ∷ beginning (λ f. f.readable) 0
    ∷ duplicating 0 3
    ∷ sized 1
    ∷ closing 0
    ∷ ending 0 100
    ∷ []

fd_array_alloc-lowest_example :
    ((j : ℕ) × (fd_array_alloc no_fd new_table ≡ done (inr j, claimed j new_table))
      × (j < nentry)
      × (is_none (new_table.fd_array j).status ≡ true)
      × ((k : ℕ) → k < j → Taken new_table k))
    ⊎ ((fd_array_alloc no_fd new_table ≡ done (inl e_max_open, new_table))
        × ((k : ℕ) → k < nentry → Taken new_table k))
fd_array_alloc-lowest_example = fd_array_alloc-lowest new_table-IsValid
