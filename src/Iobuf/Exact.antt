-- ===== src/Iobuf/Exact.antt =====
-- What `iobuf_move` does, in both directions.
use os_exercises.Base.{
  ℕ, zero, suc, ◌+◌, ◌-◌, ◌≤◌, ◌≡◌, refl, ap, ◌∙◌, inl, inr, ◌⊎◌, Bool, true, false, none, some,
  arith, ltb, leb, ◌==◌, if◌then◌else◌, Bool-cases, done, e_no_mem,
}
use os_exercises.Strings.{Mem, memmove}
use os_exercises.Strings.Overlap.{copied, memmove-copied}
use os_exercises.Iobuf.{Iobuf, iobuf_skip, transferred, iobuf_move}

-- The lesser of what is asked for and what the buffer still takes.
abbrev pub fitting : ℕ → Iobuf → ℕ
fitting len iob = if leb len iob.io_resid then len else iob.io_resid

-- The buffer after `n` bytes.
abbrev pub further : ℕ → Iobuf → Iobuf
further n iob = record {
  io_base = iob.io_base + n;
  io_offset = iob.io_offset + n;
  io_len = iob.io_len;
  io_resid = iob.io_resid - n;
}

-- The memory after `n` bytes have gone from the data at `addr` into the buffer, or back.
abbrev pub after : Iobuf → ℕ → ℕ → Bool → Mem → Mem
after iob addr n true m = copied iob.io_base addr n m
after iob addr n false m = copied addr iob.io_base n m

transferred-fitting : (iob : Iobuf) (len : ℕ) → transferred iob len ≡ fitting len iob
transferred-fitting iob len = ground arith

further_none : (iob : Iobuf) → further 0 iob ≡ iob
further_none iob =
    let a : iob.io_base + 0 ≡ iob.io_base = omega arith in
    let b : iob.io_offset + 0 ≡ iob.io_offset = omega arith in
    let c : iob.io_resid - 0 ≡ iob.io_resid = omega arith in rw (a, b, c) refl

-- The memory after a transfer of any amount.
copied_memory : Iobuf → ℕ → ℕ → Bool → Mem → Mem
copied_memory iob addr n m2b m =
    if m2b then memmove iob.io_base addr n m else memmove addr iob.io_base n m

copied_memory-after :
    (iob : Iobuf) (addr n : ℕ) (m2b : Bool) (m : Mem) (x : ℕ)
    → copied_memory iob addr n m2b m x ≡ after iob addr n m2b m x
unfolding copied_memory
copied_memory-after iob addr n true m x = memmove-copied iob.io_base addr n m x
copied_memory-after iob addr n false m x = memmove-copied addr iob.io_base n m x

-- What the code does with an amount that fits.
run-exact :
    (iob : Iobuf) (addr len n : ℕ) (m2b : Bool) (m : Mem)
    → transferred iob len ≡ n
    → n ≤ iob.io_resid
    → n ≤ len
    → (m' : Mem) × (iobuf_move iob addr len m2b m
        ≡ done ((further n iob, m'), (n, (if len - n == 0 then none else some e_no_mem))))
      × ((x : ℕ) → m' x ≡ after iob addr n m2b m x)
unfolding iobuf_move iobuf_skip copied_memory
run-exact iob addr len zero m2b m amount room le =
    let all_left : len - 0 ≡ len = omega arith in
    (m, rw (iobuf_move, amount, all_left, further_none iob) refl, nothing m2b)
  where
    nothing : (m2b : Bool) (x : ℕ) → m x ≡ after iob addr 0 m2b m x
    nothing true x = ground arith
    nothing false x = ground arith
run-exact iob addr len (suc n) m2b m amount room le =
    let fits : leb (suc n) iob.io_resid ≡ true = ground arith in
    let some_bytes : ltb 0 (suc n) ≡ true = ground arith in
    (
      copied_memory iob addr (suc n) m2b m,
      rw (iobuf_move, amount, some_bytes, fits) refl,
      copied_memory-after iob addr (suc n) m2b m,
    )

-- `iobuf_move` transfers the lesser of the bytes that are asked for and those that the buffer still
-- takes, and reports how many: into the buffer, or out of it. The bytes arrive as they were before,
-- also where the areas overlap, no other byte changes, the buffer moves on by as many, and no
-- assertion fails. It returns 0 if all bytes were transferred, and -E_NO_MEM else.
pub iobuf_move-exact :
    (iob : Iobuf) (addr len : ℕ) (m2b : Bool) (m : Mem)
    → (m' : Mem) × (iobuf_move iob addr len m2b m
        ≡ done (
          (further (fitting len iob) iob, m'),
          (fitting len iob, (if leb len iob.io_resid then none else some e_no_mem)),
        ))
      × ((x : ℕ) → m' x ≡ after iob addr (fitting len iob) m2b m x)
iobuf_move-exact iob addr len m2b m =
    let (m', run, memory) =
      run-exact iob addr len (fitting len iob) m2b m (transferred-fitting iob len) (ground arith)
        (ground arith) in
    let end : (if len - fitting len iob == 0 then none else some e_no_mem)
        ≡ (if leb len iob.io_resid then none else some e_no_mem) =
      all_or_some (Bool-cases (leb len iob.io_resid)) in
    (
      m',
      run ∙ ap (λ e. done ((further (fitting len iob) iob, m'), (fitting len iob, e))) end,
      memory,
    )
  where
    all_or_some :
        (leb len iob.io_resid ≡ true) ⊎ (leb len iob.io_resid ≡ false)
        → (if len - fitting len iob == 0 then none else some e_no_mem)
          ≡ (if leb len iob.io_resid then none else some e_no_mem)
    all_or_some (inl e) = ground (arith, e)
    all_or_some (inr e) = ground (arith, e)
