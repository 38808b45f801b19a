-- ===== src/Binlog/Writer/Encodes.antt =====
-- Produce of src/common/zp_binlog.cc against the encoding, over a file whose operations succeed.
use zeppelin.Base.{
  ℕ, zero, suc, ◌+◌, ◌-◌, ◌≤◌, ◌<◌, ◌≡◌, refl, Bool, true, false, some, List, ◌++◌, length, take,
  append_assoc, ◌∙◌, ap, subst, sym, le→leb, append-nil, length-append, length-take, replicate, ltb,
  ltb→lt, leb, ◌==◌, arith, Bool-cases, inl, inr,
}
use zeppelin.Env.{ok, WritableFiles, WritableLaws}
use zeppelin.Binlog.Format.{block_size, header_size, RecordType, header, length-header}
use zeppelin.Binlog.Writer.{
  Writer, Written, emit_physical_record, pad_block, available, produce_round, produce_loop, produce,
  left_after, record_type,
}
use zeppelin.Binlog.Encoding.{
  start, gap, part, piece, rest_of, offset_after, encode, final_offset, part-le, part-lt, part_fits,
  length-piece, encode-more, encode-done, final_offset-more, final_offset-done, offset_after-le,
  length-rest_of-lt,
}

module _ (w : WritableFiles) (laws : WritableLaws w) where
  open laws use {contents, append_ok, append_contents, flush_ok, flush_contents}

  -- The operation succeeded, appended `bytes`, counted them, and ended at `off` in its block.
  pub record Wrote (r : Writer w) (write_size : ℕ) (bytes : List ℕ) (off : ℕ) (result : Written w)
      : Type 0 where
    pub writer : Writer w
    pub returned : result ≡ some (ok, writer, write_size + length bytes)
    pub wrote : contents writer.queue ≡ contents r.queue ++ bytes
    pub ended : writer.block_offset ≡ off

  pub emit-Wrote :
      (r : Writer w) (t : RecordType) (bytes : List ℕ) (write_size : ℕ)
      → length bytes ≤ 0xffffff
      → r.block_offset + header_size + length bytes ≤ block_size
      → Wrote r write_size
          (header (length bytes) t ++ bytes)
          (r.block_offset + (header_size + length bytes))
          (emit_physical_record w r t bytes write_size)
  unfolding emit_physical_record
  emit-Wrote r t bytes write_size h k =
      let head = header (length bytes) t in
      let f = (w.append r.queue head).1 in
      let g = (w.append f bytes).1 in
      record {
        writer = record {
          queue = (w.flush g).1;
          block_offset = r.block_offset + (header_size + length bytes);
        };
        returned = rw (
          append_ok,
          append_ok,
          flush_ok,
          le→leb (length bytes) 0xffffff h,
          le→leb (r.block_offset + header_size + length bytes) block_size k,
          length-append head bytes,
          length-header (length bytes) t,
        );
        wrote =
            flush_contents g
            ∙ (append_contents f bytes
                ∙ (ap (λ c. c ++ bytes) (append_contents r.queue head)
                    ∙ append_assoc (contents r.queue) head bytes));
        ended = refl;
      }

  pub pad-wrote :
      (r : Writer w) (n : ℕ)
      → contents (pad_block w r n).0.queue ≡ contents r.queue ++ replicate (gap r.block_offset) 0
  unfolding pad_block gap
  pad-wrote r n = elim (Bool-cases (leb (block_size - r.block_offset) header_size)) [
    | inl full ↦ elim (Bool-cases (ltb 0 (block_size - r.block_offset))) [
      | inl some_left ↦ rw (full, some_left) (append_contents r.queue _)
      | inr none_left ↦ rw (full, none_left) (ground (arith, append-nil (contents r.queue)))
    ]
    | inr fits ↦ rw fits (sym (append-nil (contents r.queue)))
  ]

  pub pad-offset : (r : Writer w) (n : ℕ) → (pad_block w r n).0.block_offset ≡ start r.block_offset
  unfolding pad_block start
  pad-offset r n = ground arith

  pub pad-size : (r : Writer w) (n : ℕ) → (pad_block w r n).1 ≡ n + gap r.block_offset
  unfolding pad_block gap
  pad-size r n = ground arith

  pub available-pad :
      (r : Writer w) (n : ℕ)
      → available w (pad_block w r n).0 ≡ block_size - start r.block_offset - header_size
  unfolding available
  available-pad r n = rw (pad-offset r n)

  pub left_after-rest_of :
      (r : Writer w) (left : List ℕ) → left_after w r left ≡ rest_of r.block_offset left
  unfolding left_after rest_of part
  left_after-rest_of r left = rw (available-pad r 0)

  emit_part-Wrote :
      (r : Writer w) (t : RecordType) (off : ℕ) (left : List ℕ) (write_size : ℕ)
      → r.block_offset ≡ start off
      → Wrote r write_size
          (header (part off (length left)) t ++ take (part off (length left)) left)
          (offset_after off (length left))
          (emit_physical_record w r t (take (part off (length left)) left) write_size)
  unfolding offset_after
  emit_part-Wrote r t off left write_size h =
      let bytes = take (part off (length left)) left in
      let whole : length bytes ≡ part off (length left) =
        omega (arith, length-take (part off (length left)) left, part-le off (length left)) in
      subst
        (λ (o : ℕ).
          Wrote r write_size (header (part off (length left)) t ++ bytes)
            (o + (header_size + part off (length left)))
            (emit_physical_record w r t bytes write_size))
        h
        (subst
          (λ (k : ℕ).
            Wrote r write_size (header k t ++ bytes) (r.block_offset + (header_size + k))
              (emit_physical_record w r t bytes write_size))
          whole
          (emit-Wrote r t bytes write_size (omega (arith, part-lt off (length left)))
            (omega (arith, part_fits off (length left)))))

  round-emit :
      (r : Writer w) (begin : Bool) (left : List ℕ) (write_size : ℕ)
      → r.block_offset ≤ block_size
      → produce_round w r begin left write_size
        ≡ emit_physical_record w
            (pad_block w r write_size).0
            (record_type begin (length left == part r.block_offset (length left)))
            (take (part r.block_offset (length left)) left)
            (write_size + gap r.block_offset)
  unfolding produce_round part
  round-emit r begin left write_size h =
      rw (le→leb r.block_offset block_size h, available-pad r write_size, pad-size r write_size)

  pub round-Wrote :
      (r : Writer w) (begin : Bool) (left : List ℕ) (write_size : ℕ)
      → r.block_offset ≤ block_size
      → Wrote r write_size
          (piece r.block_offset begin left)
          (offset_after r.block_offset (length left))
          (produce_round w r begin left write_size)
  round-Wrote r begin left write_size h =
      let p = (pad_block w r write_size).0 in
      let n = part r.block_offset (length left) in
      let t = record_type begin (length left == n) in
      let e =
        emit_part-Wrote p t r.block_offset left (write_size + gap r.block_offset)
          (pad-offset r write_size) in
      record {
        writer = e.writer;
        returned =
            round-emit r begin left write_size h
            ∙ (e.returned
                ∙ ap (λ (k : ℕ). some (ok, e.writer, k))
                    (omega (arith, length-piece r.block_offset begin left)));
        wrote =
            unfold piece in
            (e.wrote
              ∙ (ap (λ c. c ++ (header n t ++ take n left)) (pad-wrote r write_size)
                  ∙ append_assoc (contents r.queue) (replicate (gap r.block_offset) 0)
                      (header n t ++ take n left)));
        ended = e.ended;
      }

  module _ (fuel : ℕ) (r r' : Writer w) (begin : Bool) (left : List ℕ) (write_size size : ℕ) where
    loop-more :
        produce_round w r begin left write_size ≡ some (ok, r', size)
        → ltb 0 (length (rest_of r.block_offset left)) ≡ true
        → produce_loop w (suc fuel) r begin left write_size
          ≡ produce_loop w fuel r' false (rest_of r.block_offset left) size
    unfolding produce_loop
    loop-more e h =
        rw (e, produce_loop, left_after-rest_of r left, h) (rw (left_after-rest_of r left))

    loop-done :
        produce_round w r begin left write_size ≡ some (ok, r', size)
        → ltb 0 (length (rest_of r.block_offset left)) ≡ false
        → produce_loop w (suc fuel) r begin left write_size ≡ some (ok, r', size)
    unfolding produce_loop
    loop-done e h = rw (e, produce_loop, left_after-rest_of r left, h)

  -- One more record before the rest.
  Wrote-then :
      {r : Writer w} {size : ℕ} {bs cs : List ℕ} {off off' : ℕ} {first rest : Written w}
      (e : Wrote r size bs off first)
      → Wrote e.writer (size + length bs) cs off' rest
      → Wrote r size (bs ++ cs) off' rest
  Wrote-then {r} {size} {bs} {cs} e d = record {
    writer = d.writer;
    returned =
        d.returned ∙ ap (λ (k : ℕ). some (ok, d.writer, k)) (omega (arith, length-append bs cs));
    wrote = d.wrote ∙ (ap (λ c. c ++ cs) e.wrote ∙ append_assoc (contents r.queue) bs cs);
    ended = d.ended;
  }

  pub loop-Wrote :
      (fuel : ℕ) (r : Writer w) (begin : Bool) (left : List ℕ) (write_size : ℕ)
      → r.block_offset ≤ block_size
      → length left < fuel
      → Wrote r write_size
          (encode fuel r.block_offset begin left)
          (final_offset fuel r.block_offset left)
          (produce_loop w fuel r begin left write_size)
  loop-Wrote zero r begin left write_size h k = elim k [ ]
  loop-Wrote (suc fuel) r begin left write_size h k =
      let e = round-Wrote r begin left write_size h in
      let rest = rest_of r.block_offset left in
      elim (Bool-cases (ltb 0 (length rest))) [
        | inl more ↦
            rw
              (
                encode-more fuel r.block_offset left begin more,
                final_offset-more fuel r.block_offset left more,
                loop-more fuel r e.writer begin left write_size _ e.returned more,
              )
              (Wrote-then e (
                rw (sym e.ended) (
                  loop-Wrote fuel e.writer false rest
                    (write_size + length (piece r.block_offset begin left))
                    (rw e.ended (offset_after-le r.block_offset (length left)))
                    (omega (
                      arith,
                      length-rest_of-lt r.block_offset left,
                      ltb→lt 0 (length rest) more,
                    )))))
        | inr done ↦
            rw
              (
                encode-done fuel r.block_offset left begin done,
                final_offset-done fuel r.block_offset left done,
                loop-done fuel r e.writer begin left write_size _ e.returned done,
              )
              (record { writer = e.writer; returned = refl; wrote = e.wrote; ended = e.ended })
      ]

  -- Over a file whose operations succeed, Produce appends the encoding of the item.
  pub produce-Wrote :
      (r : Writer w) (item : List ℕ)
      → r.block_offset ≤ block_size
      → Wrote r 0
          (encode (suc (length item)) r.block_offset true item)
          (final_offset (suc (length item)) r.block_offset item)
          (produce w r item)
  unfolding produce
  produce-Wrote r item h = loop-Wrote (suc (length item)) r true item 0 h (omega arith)
