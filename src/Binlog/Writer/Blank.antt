-- ===== src/Binlog/Writer/Blank.antt =====
-- AppendBlank of src/common/zp_binlog.cc, over a file whose operations succeed.
use zeppelin.Base.{
  ℕ, suc, ◌+◌, ◌-◌, ◌≤◌, ◌≡◌, ap, ◌∙◌, subst, some, List, ◌++◌, append_assoc, length, length-append,
  length-replicate, replicate, le→leb, le→not-ltb, arith,
}
use zeppelin.Env.{ok, WritableFiles, WritableLaws}
use zeppelin.Binlog.Format.{block_size, header_size, empty_type, header, length-header}
use zeppelin.Binlog.Writer.{
  Writer, emit_physical_record, pad_block, fragment_length, blank_round, blank_left, blank_loop,
  append_blank,
}
use zeppelin.Binlog.Writer.Encodes.{
  Wrote, emit-Wrote, pad-wrote, pad-offset, pad-size, available-pad,
}
use zeppelin.Binlog.Encoding.{start, gap}

module _ (w : WritableFiles) (laws : WritableLaws w) where
  open laws use {contents}

  fragment_all :
      (off left : ℕ)
      → start off + header_size + left ≤ block_size
      → fragment_length left (block_size - start off - header_size) ≡ left
  fragment_all off left h = ground arith

  module _ (r : Writer w) (left write_size : ℕ)
      (fits : start r.block_offset + header_size + left ≤ block_size) where
    blank_left-zero : blank_left w r left ≡ 0
    unfolding blank_left
    blank_left-zero =
        rw (available-pad w laws r 0, fragment_all r.block_offset left fits) (omega arith)

    blank_round-emit :
        r.block_offset ≤ block_size
        → blank_round w r left write_size
          ≡ emit_physical_record w
              (pad_block w r write_size).0
              empty_type
              (replicate left 0)
              (write_size + gap r.block_offset)
    unfolding blank_round
    blank_round-emit h = rw (
      le→leb r.block_offset block_size h,
      available-pad w laws r write_size,
      fragment_all r.block_offset left fits,
      pad-size w laws r write_size,
    )

  -- The bytes of a blank that fits: the fill of the old block, a header and zeros.
  abbrev pub blank_bytes : ℕ → ℕ → List ℕ
  blank_bytes off left = replicate (gap off) 0 ++ (header left empty_type ++ replicate left 0)

  blank_loop-one :
      (fuel : ℕ) (r r' : Writer w) (left size : ℕ)
      → blank_round w r left 0 ≡ some (ok, r', size)
      → blank_left w r left ≡ 0
      → blank_loop w (suc fuel) r left 0 ≡ some (ok, r', size)
  unfolding blank_loop
  blank_loop-one fuel r r' left size e z = rw (e, blank_loop, z)

  -- Where a blank of `len` bytes, its header counted, fits into the block it starts in, AppendBlank
  -- succeeds, appends the fill of the old block and one empty record, and moves on by both: by
  -- `len` and by the fill.
  pub blank-Wrote :
      (r : Writer w) (len write_size : ℕ)
      → r.block_offset ≤ block_size
      → header_size ≤ len
      → start r.block_offset + len ≤ block_size
      → Wrote w laws r 0
          (blank_bytes r.block_offset (len - header_size))
          (start r.block_offset + len)
          (append_blank w r len write_size)
  unfolding append_blank
  blank-Wrote r len write_size h k fits =
      let left = len - header_size in
      let p = (pad_block w r 0).0 in
      let bytes : List ℕ = replicate left 0 in
      let fill : List ℕ = replicate (gap r.block_offset) 0 in
      let whole : length bytes ≡ left = length-replicate left 0 in
      let e =
        subst
          (λ (n : ℕ).
            Wrote w laws p (0 + gap r.block_offset) (header n empty_type ++ bytes)
              (p.block_offset + (header_size + n))
              (emit_physical_record w p empty_type bytes (0 + gap r.block_offset)))
          whole
          (emit-Wrote w laws p empty_type bytes (0 + gap r.block_offset) (omega (arith, whole))
            (omega (arith, whole, pad-offset w laws r 0))) in
      rw (le→not-ltb len header_size k) (record {
        writer = e.writer;
        returned =
            blank_loop-one len r e.writer left _
              (blank_round-emit r left 0 (omega arith) h ∙ e.returned)
              (blank_left-zero r left 0 (omega arith))
            ∙ ap (λ (n : ℕ). some (ok, e.writer, n))
                (omega (
                  arith,
                  length-append fill (header left empty_type ++ bytes),
                  length-replicate {A = ℕ} (gap r.block_offset) 0,
                ));
        wrote =
            e.wrote
            ∙ (ap (λ c. c ++ (header left empty_type ++ bytes)) (pad-wrote w laws r 0)
                ∙ append_assoc (contents r.queue) fill (header left empty_type ++ bytes));
        ended = e.ended ∙ omega (arith, pad-offset w laws r 0);
      })

  pub length-blank_bytes :
      (off len : ℕ)
      → header_size ≤ len
      → length (blank_bytes off (len - header_size)) ≡ gap off + len
  length-blank_bytes off len h = omega (
    arith,
    length-append (replicate (gap off) 0)
        (header (len - header_size) empty_type ++ replicate (len - header_size) 0),
    length-append (header (len - header_size) empty_type) (replicate (len - header_size) 0),
    length-header (len - header_size) empty_type,
    length-replicate {A = ℕ} (gap off) 0,
    length-replicate {A = ℕ} (len - header_size) 0,
  )

  -- Over a file whose operations succeed, at a block offset of at most the block's size: a blank of
  -- `len` bytes, which is at least the size of a header and fits into the block it starts in,
  -- returns OK and appends the zeros that fill the old block, the header of an empty record and
  -- zeros, and counts `len` bytes and those of the fill.
  pub append_blank-counts :
      (r : Writer w) (len write_size : ℕ)
      → r.block_offset ≤ block_size
      → header_size ≤ len
      → start r.block_offset + len ≤ block_size
      → (r' : Writer w) × (append_blank w r len write_size
          ≡ some (ok, r', gap r.block_offset + len))
        × (contents r'.queue ≡ contents r.queue ++ blank_bytes r.block_offset (len - header_size))
        × (length (blank_bytes r.block_offset (len - header_size)) ≡ gap r.block_offset + len)
  append_blank-counts r len write_size h k fits =
      let e = blank-Wrote r len write_size h k fits in
      let size = length-blank_bytes r.block_offset len k in
      (
        e.writer,
        e.returned ∙ ap (λ (n : ℕ). some (ok, e.writer, n)) (omega (arith, size)),
        e.wrote,
        size,
      )
