-- ===== src/Binlog/Writer/Total.antt =====
-- The loop of Produce of src/common/zp_binlog.cc over any file, failing ones included.
use zeppelin.Base.{
  ℕ, zero, suc, ◌+◌, ◌≤◌, ◌<◌, ◌≡◌, refl, Bool, true, false, ◌&&◌, some, List, length, take,
  length-take, length-drop, ltb, le→leb, arith, Bool-cases, inl, inr,
}
use zeppelin.Env.{Status, is_ok, WritableFiles}
use zeppelin.Binlog.Format.{block_size, header_size, RecordType}
use zeppelin.Binlog.Writer.{
  Writer, Written, emit_physical_record, pad_block, available, produce_round, produce_loop, produce,
  left_after, fragment_length,
}

module _ (w : WritableFiles) where
  -- The operation ended, no assert failed, and the offset is in range.
  pub record Ends (write_size : ℕ) (result : Written w) : Type 0 where
    pub status : Status
    pub writer : Writer w
    pub size : ℕ
    pub returned : result ≡ some (status, writer, size)
    pub in_block : writer.block_offset ≤ block_size
    pub counted : write_size ≤ size

  emit-Ends :
      (r : Writer w) (t : RecordType) (bytes : List ℕ) (write_size : ℕ)
      → r.block_offset + header_size + length bytes ≤ block_size
      → Ends write_size (emit_physical_record w r t bytes write_size)
  unfolding emit_physical_record
  emit-Ends r t bytes write_size h =
      rw
        (
          le→leb (length bytes) 0xffffff (omega arith),
          le→leb (r.block_offset + header_size + length bytes) block_size h,
        )
        (record {
          status = _;
          writer = _;
          size = _;
          returned = refl;
          in_block = omega arith;
          counted = omega arith;
        })

  pad-room : (r : Writer w) (n : ℕ) → (pad_block w r n).0.block_offset + header_size < block_size
  unfolding pad_block
  pad-room r n = ground arith

  pad-counted : (r : Writer w) (n : ℕ) → n ≤ (pad_block w r n).1
  unfolding pad_block
  pad-counted r n = ground arith

  fragment_fits :
      (r : Writer w) (n left : ℕ)
      → (pad_block w r n).0.block_offset
          + header_size
          + fragment_length left (available w (pad_block w r n).0)
        ≤ block_size
  unfolding available
  fragment_fits r n left = ground (arith, pad-room r n)

  Ends-from : {a b : ℕ} {x : Written w} → a ≤ b → Ends b x → Ends a x
  Ends-from h e = record {
    status = e.status;
    writer = e.writer;
    size = e.size;
    returned = e.returned;
    in_block = e.in_block;
    counted = omega arith;
  }

  round-Ends :
      (r : Writer w) (begin : Bool) (left : List ℕ) (write_size : ℕ)
      → r.block_offset ≤ block_size
      → Ends write_size (produce_round w r begin left write_size)
  unfolding produce_round
  round-Ends r begin left write_size h =
      let n = fragment_length (length left) (available w (pad_block w r write_size).0) in
      rw (le→leb r.block_offset block_size h) (
        Ends-from (pad-counted r write_size) (
          emit-Ends (pad_block w r write_size).0 _ (take n left) _
            (omega (arith, length-take n left, fragment_fits r write_size (length left)))))

  pad-same : (r : Writer w) (n m : ℕ) → (pad_block w r n).0 ≡ (pad_block w r m).0
  unfolding pad_block
  pad-same r n m = ground arith

  left_after-lt :
      (r : Writer w) (left : List ℕ)
      → 0 < length (left_after w r left)
      → length (left_after w r left) < length left
  unfolding left_after available
  left_after-lt r left h = ground (
    arith,
    pad-room r 0,
    length-drop (fragment_length (length left) (available w (pad_block w r 0).0)) left,
  )

  loop-Ends :
      (fuel : ℕ) (r : Writer w) (begin : Bool) (left : List ℕ) (write_size : ℕ)
      → r.block_offset ≤ block_size
      → length left < fuel
      → Ends write_size (produce_loop w fuel r begin left write_size)
  unfolding produce_loop
  loop-Ends zero r begin left write_size h k = elim k [ ]
  loop-Ends (suc fuel) r begin left write_size h k =
      let e = round-Ends r begin left write_size h in
      let next = left_after w r left in
      elim (Bool-cases (is_ok e.status && ltb 0 (length next))) [
        | inl more ↦
            rw (e.returned, produce_loop, more)
              (Ends-from e.counted (
                loop-Ends fuel e.writer false next e.size e.in_block (
                  omega
                    (arith, left_after-lt r left, positive (is_ok e.status) (length next) more))))
        | inr done ↦
            rw (e.returned, produce_loop, done)
              (record {
                status = e.status;
                writer = e.writer;
                size = e.size;
                returned = refl;
                in_block = e.in_block;
                counted = e.counted;
              })
      ]
    where
      positive : (b : Bool) (n : ℕ) → (b && ltb 0 n) ≡ true → 0 < n
      positive b n h = ground arith

  -- Produce returns on every item and over every file, whatever its operations answer: no assert
  -- fails, the loop ends, and the writer's offset stays within its block.
  pub produce-Ends :
      (r : Writer w) (item : List ℕ) → r.block_offset ≤ block_size → Ends 0 (produce w r item)
  unfolding produce
  produce-Ends r item h = loop-Ends (suc (length item)) r true item 0 h (omega arith)
