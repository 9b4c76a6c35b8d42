-- ===== src/Iobuf/Tests.antt =====
-- A buffer of ten bytes.
use os_exercises.Base.{ℕ, ◌≡◌, true, some, e_no_mem, done}
use os_exercises.Strings.{Mem}
use os_exercises.Iobuf.{iobuf_init, iobuf_move}
use os_exercises.Iobuf.Exact.{further, after, iobuf_move-exact}

abbrev bytes : Mem
bytes x = x

-- Twelve bytes do not fit.
iobuf_move-exact_example :
    (m' : Mem) × (iobuf_move (iobuf_init 100 10 0) 200 12 true bytes
      ≡ done ((further 10 (iobuf_init 100 10 0), m'), (10, some e_no_mem)))
    × ((x : ℕ) → m' x ≡ after (iobuf_init 100 10 0) 200 10 true bytes x)
iobuf_move-exact_example = iobuf_move-exact (iobuf_init 100 10 0) 200 12 true bytes
