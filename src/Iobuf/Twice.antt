-- ===== src/Iobuf/Twice.antt =====
-- Two calls of `iobuf_move`.
use os_exercises.Base.{ℕ, ◌+◌, ◌-◌, ◌≤◌, ◌≡◌, refl, sym, ap, ◌∙◌, true, none, arith, leb, done}
use os_exercises.Strings.{Mem}
use os_exercises.Strings.Overlap.{copied, Upward, copied-parts}
use os_exercises.Iobuf.{iobuf_move, Iobuf}
use os_exercises.Iobuf.Exact.{further, iobuf_move-exact}

-- A call with room for all of `len` bytes puts them into the buffer.
pub iobuf_move-fits :
    (iob : Iobuf) (addr len : ℕ) (m : Mem)
    → len ≤ iob.io_resid
    → (m' : Mem) × (iobuf_move iob addr len true m ≡ done ((further len iob, m'), (len, none)))
      × ((x : ℕ) → m' x ≡ copied iob.io_base addr len m x)
iobuf_move-fits iob addr len m le =
    let fits : leb len iob.io_resid ≡ true = ground arith in
    rw fits at (iobuf_move-exact iob addr len true m)

-- Two calls of `iobuf_move` into a buffer, of `a` bytes and of the `b` bytes after them, leave the
-- buffer and the memory that one call of all `a + b` bytes leaves, and none of the three fails, when
-- the buffer has room for all and does not start within the data.
pub iobuf_move-twice :
    (iob : Iobuf) (addr a b : ℕ) (m : Mem)
    → a + b ≤ iob.io_resid
    → Upward iob.io_base addr (a + b)
    → (iob1 : Iobuf) × (m1 : Mem) × (iob2 : Iobuf) × (m2 : Mem) × (m' : Mem) × (iobuf_move iob addr
          a true m
        ≡ done ((iob1, m1), (a, none)))
      × (iobuf_move iob1 (addr + a) b true m1 ≡ done ((iob2, m2), (b, none)))
      × (iobuf_move iob addr (a + b) true m ≡ done ((iob2, m'), (a + b, none)))
      × ((x : ℕ) → m2 x ≡ m' x)
iobuf_move-twice iob addr a b m room up =
    let (m1, run1, first) = iobuf_move-fits iob addr a m (omega (arith, room)) in
    let (m2, run2, second) =
      iobuf_move-fits (further a iob) (addr + a) b m1 (omega (arith, room)) in
    let (m', run, all) = iobuf_move-fits iob addr (a + b) m room in
    let p : iob.io_base + (a + b) ≡ iob.io_base + a + b = omega arith in
    let q : iob.io_offset + (a + b) ≡ iob.io_offset + a + b = omega arith in
    let r : iob.io_resid - (a + b) ≡ iob.io_resid - a - b = omega arith in
    let same : further (a + b) iob ≡ further b (further a iob) = rw (p, q, r) refl in
    (
      further a iob,
      m1,
      further b (further a iob),
      m2,
      m',
      run1,
      run2,
      run ∙ ap (λ i. done ((i, m'), (a + b, none))) same,
      λ x. second x ∙ copied-parts iob.io_base addr a b m m1 up first x ∙ sym (all x),
    )
