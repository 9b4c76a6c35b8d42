-- ===== src/Iobuf.antt =====
-- Buffers for input and output (kern/fs/iobuf.c). Addresses and offsets are numbers.
pub mod Exact
pub mod Twice
mod Tests
use os_exercises.Base.{
  ℕ, ◌+◌, ◌-◌, Bool, Option, none, some, ltb, leb, ◌==◌, if◌then◌else◌, Outcome, done, ◌>>=◌, ◌>>◌,
  assert, Error, e_no_mem,
}
use os_exercises.Strings.{Mem, memmove, memset}

pub record Iobuf : Type 0 where
  pub io_base : ℕ
  pub io_offset : ℕ
  pub io_len : ℕ
  pub io_resid : ℕ

abbrev pub iobuf_init : ℕ → ℕ → ℕ → Iobuf
iobuf_init base len offset = record {
  io_base = base;
  io_offset = offset;
  io_len = len;
  io_resid = len;
}

unfoldable pub iobuf_skip : ℕ → Iobuf → Outcome Iobuf
iobuf_skip n iob =
    assert (leb n iob.io_resid)
    >> done (record iob {
      io_base = iob.io_base + n;
      io_offset = iob.io_offset + n;
      io_resid = iob.io_resid - n;
    })

-- How much a call transfers.
abbrev pub transferred : Iobuf → ℕ → ℕ
transferred iob len = if ltb len iob.io_resid then len else iob.io_resid

-- What a call leaves: the buffer, the memory, the amount, and the error.
abbrev pub Moved : Type 0
Moved = (Iobuf × Mem) × (ℕ × Option Error)

abbrev pub moved : ℕ → ℕ → Mem → Iobuf → Outcome Moved
moved alen left m iob = done ((iob, m), (alen, (if left == 0 then none else some e_no_mem)))

unfoldable pub iobuf_move : Iobuf → ℕ → ℕ → Bool → Mem → Outcome Moved
iobuf_move iob addr len m2b m =
    let alen = transferred iob len in
    if ltb 0 alen
    then (iobuf_skip alen iob
        >>= moved alen (len - alen)
            (if m2b then memmove iob.io_base addr alen m else memmove addr iob.io_base alen m))
    else moved alen len m iob

unfoldable pub iobuf_move_zeros : Iobuf → ℕ → Mem → Outcome Moved
iobuf_move_zeros iob len m =
    let alen = transferred iob len in
    if ltb 0 alen
    then (iobuf_skip alen iob >>= moved alen (len - alen) (memset iob.io_base 0 alen m))
    else moved alen len m iob
