-- ===== src/Binlog/Reader/Decodes.antt =====
-- Consume of src/common/zp_binlog.cc on a file that holds an encoded item.
use native.Mathlib.Nat.{add_assoc}
use zeppelin.Base.{
  ℕ, zero, suc, ◌+◌, ◌-◌, ◌≤◌, ◌<◌, ◌≡◌, refl, sym, ap, ◌∙◌, Bool, true, false, some, List, [],
  ◌++◌, append_assoc, length, take, drop, take-append, drop-append, length-append, length-take,
  length-replicate, not, replicate, ltb, ltb→lt, le→leb, leb, ◌==◌, arith, Bool-cases, inl, inr,
}
use zeppelin.Env.{Status, ok, SequentialFiles, SequentialLaws}
use zeppelin.Binlog.Format.{
  block_size, header_size, RecordType, header, header_length-header, header_type-header,
  length-header, code, of_code, of_code-code,
}
use zeppelin.Binlog.Reader.{
  Reader, Physical, Consumed, on_record, go_on, finish, skip_padding, skip_next_block,
  read_fragment, fragment_result, header_result, read_physical_record, consume_loop, consume,
}
use zeppelin.Binlog.Writer.{record_type}
use zeppelin.Binlog.Encoding.{
  start, gap, part, piece, rest_of, offset_after, encode, final_offset, part-le, part-lt,
  offset_after-le, length-rest_of-lt, length-piece, encode-more, encode-done, final_offset-more,
  final_offset-done, part-eq, piece-append, take-append-rest_of, take-part_all,
}

module _ (q : SequentialFiles) (laws : SequentialLaws q) where
  open laws use {rest, read_length, read_rest, read_ok, skip_rest}

  -- A read returned `bytes` and left `tail` to read.
  record Reads (f : q.File) (n : ℕ) (bytes tail : List ℕ) : Type 0 where
    file : q.File
    returned : q.read f n ≡ (ok, bytes, file)
    left : rest file ≡ tail

  read_prefix :
      (f : q.File) (n : ℕ) (bytes tail : List ℕ)
      → n ≡ length bytes
      → rest f ≡ bytes ++ tail
      → Reads f n bytes tail
  read_prefix f n bytes tail h e =
      let good : (q.read f n).0 ≡ ok =
        read_ok f n (omega (arith, ap length e, length-append bytes tail)) in
      let whole : (q.read f n).1 ++ rest (q.read f n).2 ≡ bytes ++ tail =
        sym (read_rest f n good) ∙ e in
      let size : n ≡ length (q.read f n).1 = sym (read_length f n good) in
      let same : (q.read f n).1 ≡ bytes =
        sym (take-append n (q.read f n).1 (rest (q.read f n).2) size)
        ∙ (ap (take n) whole ∙ take-append n bytes tail h) in
      record {
        file = (q.read f n).2;
        returned = λ i. (good i, same i, (q.read f n).2);
        left =
            sym (drop-append n (q.read f n).1 (rest (q.read f n).2) size)
            ∙ (ap (drop n) whole ∙ drop-append n bytes tail h);
      }

  skip_padding-offset :
      (r : Reader q) (size : ℕ)
      → (skip_padding q r size).0.last_record_offset ≡ start r.last_record_offset
  unfolding skip_padding skip_next_block start
  skip_padding-offset r size = ground arith

  skip_padding-size :
      (r : Reader q) (size : ℕ)
      → r.last_record_offset ≤ block_size
      → (skip_padding q r size).1 ≡ size + gap r.last_record_offset
  unfolding skip_padding skip_next_block gap
  skip_padding-size r size b = ground arith

  skip_padding-rest :
      (r : Reader q) (size : ℕ) (tail : List ℕ)
      → r.last_record_offset ≤ block_size
      → rest r.queue ≡ replicate (gap r.last_record_offset) 0 ++ tail
      → rest (skip_padding q r size).0.queue ≡ tail
  unfolding skip_padding skip_next_block gap
  skip_padding-rest r size tail b e =
      elim (Bool-cases (leb (block_size - r.last_record_offset) header_size)) [
        | inl full ↦
            rw (full, le→leb r.last_record_offset block_size b, skip_rest)
              (ap (drop (block_size - r.last_record_offset)) (rw full at e)
                ∙ drop-append (block_size - r.last_record_offset)
                    (replicate (block_size - r.last_record_offset) 0) tail
                    (sym (length-replicate (block_size - r.last_record_offset) 0)))
        | inr fits ↦ rw fits (rw fits at e)
      ]

  -- A record was read: the type and the bytes it was written with, and `tail` is left to read.
  record Found (r : Reader q) (t : RecordType) (size : ℕ) (bytes : List ℕ) (off : ℕ) (tail : List ℕ)
      (result : Physical q) : Type 0 where
    type : result.type ≡ code t
    counted : result.size ≡ size
    fragment : result.fragment ≡ bytes
    ended : result.reader.last_record_offset ≡ off
    left : rest result.reader.queue ≡ tail

  fragment-Found :
      (r : Reader q) (size n : ℕ) (t : RecordType) (bytes tail : List ℕ)
      → n ≡ length bytes
      → n < 16777216
      → rest r.queue ≡ bytes ++ tail
      → Found r t
          (size + n)
          bytes
          (r.last_record_offset + n)
          tail
          (read_fragment q r size (header n t))
  unfolding read_fragment fragment_result
  fragment-Found r size n t bytes tail h k e =
      let x = read_prefix r.queue n bytes tail h e in
      rw (header_length-header n t k, x.returned, header_type-header n t)
        (record { type = refl; counted = refl; fragment = refl; ended = refl; left = x.left })

  record-Found :
      (r : Reader q) (size : ℕ) (before : List ℕ) (n : ℕ) (t : RecordType) (bytes tail : List ℕ)
      → n ≡ length bytes
      → n < 16777216
      → r.last_record_offset ≤ block_size
      → rest r.queue ≡ replicate (gap r.last_record_offset) 0 ++ (header n t ++ (bytes ++ tail))
      → Found r t
          (size + gap r.last_record_offset + header_size + n)
          bytes
          (start r.last_record_offset + (header_size + n))
          tail
          (read_physical_record q r size before)
  unfolding read_physical_record header_result
  record-Found r size before n t bytes tail h k b e =
      let p = (skip_padding q r size).0 in
      let x =
        read_prefix p.queue header_size (header n t) (bytes ++ tail) (sym (length-header n t))
          (skip_padding-rest r size _ b e) in
      rw (x.returned, skip_padding-size r size b, skip_padding-offset r size)
        (let y =
            fragment-Found
              (record {
                queue = x.file;
                last_record_offset = start r.last_record_offset + header_size;
              })
              (size + gap r.last_record_offset + header_size) n t bytes tail h k x.left in
          record {
            type = y.type;
            counted = y.counted;
            fragment = y.fragment;
            ended = y.ended ∙ add_assoc (start r.last_record_offset) header_size n;
            left = y.left;
          })

  -- Consume returned the item, counted the bytes of its records and left `tail` to read.
  pub record Consumes (size : ℕ) (item : List ℕ) (off : ℕ) (tail : List ℕ) (result : Consumed q)
      : Type 0 where
    pub reader : Reader q
    pub returned : result ≡ some (ok, size, item, reader)
    pub ended : reader.last_record_offset ≡ off
    pub left : rest reader.queue ≡ tail

  -- *scratch when the record has been handled, before its bytes are added.
  abbrev held : Bool → List ℕ → List ℕ
  held true scratch = []
  held false scratch = scratch

  on_record-last :
      (begin : Bool) (bytes scratch : List ℕ)
      → on_record (some (record_type begin true)) (not begin) bytes scratch
        ≡ finish ok (held begin scratch ++ bytes)
  unfolding on_record
  on_record-last true bytes scratch = refl
  on_record-last false bytes scratch = refl

  on_record-more :
      (begin : Bool) (bytes scratch : List ℕ)
      → on_record (some (record_type begin false)) (not begin) bytes scratch
        ≡ go_on (held begin scratch ++ bytes)
  unfolding on_record
  on_record-more true bytes scratch = refl
  on_record-more false bytes scratch = refl

  module _ (fuel : ℕ) (r : Reader q) (inside : Bool) (size : ℕ)
      (before scratch result : List ℕ) where
    consume-go_on :
        on_record
            (of_code (read_physical_record q r size before).type)
            inside
            (read_physical_record q r size before).fragment
            scratch
          ≡ go_on result
        → consume_loop q (suc fuel) r inside size before scratch
          ≡ consume_loop q fuel
              (read_physical_record q r size before).reader
              true
              (read_physical_record q r size before).size
              (read_physical_record q r size before).fragment
              result
    unfolding consume_loop
    consume-go_on e = rw (e, consume_loop)

    consume-finish :
        (s : Status)
        → on_record
            (of_code (read_physical_record q r size before).type)
            inside
            (read_physical_record q r size before).fragment
            scratch
          ≡ finish s result
        → consume_loop q (suc fuel) r inside size before scratch
          ≡ some (
            s,
            (read_physical_record q r size before).size,
            result,
            (read_physical_record q r size before).reader,
          )
    unfolding consume_loop
    consume-finish s e = rw (e, consume_loop)

  -- The record of a round of Produce.
  piece-Found :
      (r : Reader q) (size : ℕ) (before : List ℕ) (begin : Bool) (left more : List ℕ)
      → r.last_record_offset ≤ block_size
      → rest r.queue ≡ piece r.last_record_offset begin left ++ more
      → Found r
          (record_type begin (length left == part r.last_record_offset (length left)))
          (size + length (piece r.last_record_offset begin left))
          (take (part r.last_record_offset (length left)) left)
          (offset_after r.last_record_offset (length left))
          more
          (read_physical_record q r size before)
  unfolding offset_after
  piece-Found r size before begin left more b e =
      let n = part r.last_record_offset (length left) in
      let t = record_type begin (length left == n) in
      let bytes = take n left in
      let whole : n ≡ length bytes =
        omega (arith, length-take n left, part-le r.last_record_offset (length left)) in
      let y =
        record-Found r size before n t bytes more whole
          (omega (arith, part-lt r.last_record_offset (length left))) b
          (e ∙ piece-append r.last_record_offset begin left more) in
      record {
        type = y.type;
        counted =
            y.counted
            ∙ omega (
              arith,
              length-piece r.last_record_offset begin left,
              length-append (header n t) bytes,
              length-header n t,
            );
        fragment = y.fragment;
        ended = y.ended;
        left = y.left;
      }

  -- Consume on the encoding of what is left of an item, with more fuel than bytes.
  loop-Consumes :
      (fuel m : ℕ) (r : Reader q) (begin : Bool) (size : ℕ) (before scratch left tail : List ℕ)
      → length left < fuel
      → length left < m
      → r.last_record_offset ≤ block_size
      → rest r.queue ≡ encode fuel r.last_record_offset begin left ++ tail
      → Consumes
          (size + length (encode fuel r.last_record_offset begin left))
          (held begin scratch ++ left)
          (final_offset fuel r.last_record_offset left)
          tail
          (consume_loop q m r (not begin) size before scratch)
  loop-Consumes zero m r begin size before scratch left tail k l b e = elim k [ ]
  loop-Consumes (suc fuel) zero r begin size before scratch left tail k l b e = elim l [ ]
  loop-Consumes (suc fuel) (suc m) r begin size before scratch left tail k l b e =
      let off = r.last_record_offset in
      let n = part off (length left) in
      let p = read_physical_record q r size before in
      elim (Bool-cases (ltb 0 (length (rest_of off left)))) [
        | inl more ↦
            let next = rest_of off left in
            let bytes = encode fuel (offset_after off (length left)) false next in
            let y = piece-Found r size before begin left (bytes ++ tail) b (
              e
              ∙ (ap (λ c. c ++ tail) (encode-more fuel off left begin more)
                  ∙ append_assoc (piece off begin left) bytes tail)) in
            let go : on_record (of_code p.type) (not begin) p.fragment scratch
                ≡ go_on (held begin scratch ++ take n left) =
              rw (y.type, y.fragment, of_code-code, part-eq off left, more)
                (on_record-more begin (take n left) scratch) in
            let fewer : length next < length left =
              length-rest_of-lt off left (ltb→lt 0 (length next) more) in
            let d =
              loop-Consumes fuel m p.reader false p.size p.fragment
                (held begin scratch ++ take n left) next tail (omega arith) (omega arith)
                (omega (arith, y.ended, offset_after-le off (length left)))
                (y.left ∙ ap (λ (o : ℕ). encode fuel o false next ++ tail) (sym y.ended)) in
            let total : p.size + length (encode fuel p.reader.last_record_offset false next)
                ≡ size + length (encode (suc fuel) off begin left) =
              omega (
                arith,
                y.counted,
                ap length (encode-more fuel off left begin more),
                length-append (piece off begin left) bytes,
                ap (λ (o : ℕ). length (encode fuel o false next)) y.ended,
              ) in
            let item : (held begin scratch ++ take n left) ++ next ≡ held begin scratch ++ left =
              append_assoc (held begin scratch) (take n left) next
              ∙ ap (λ c. held begin scratch ++ c) (take-append-rest_of off left) in
            record {
              reader = d.reader;
              returned =
                  consume-go_on m r (not begin) size before scratch _ go
                  ∙ (d.returned ∙ (λ i. some (ok, total i, item i, d.reader)));
              ended =
                  d.ended
                  ∙ (ap (λ (o : ℕ). final_offset fuel o next) y.ended
                      ∙ sym (final_offset-more fuel off left more));
              left = d.left;
            }
        | inr done ↦
            let y =
              piece-Found r size before begin left tail b
                (e ∙ ap (λ c. c ++ tail) (encode-done fuel off left begin done)) in
            let go : on_record (of_code p.type) (not begin) p.fragment scratch
                ≡ finish ok (held begin scratch ++ take n left) =
              rw (y.type, y.fragment, of_code-code, part-eq off left, done)
                (on_record-last begin (take n left) scratch) in
            let total : p.size ≡ size + length (encode (suc fuel) off begin left) =
              omega (arith, y.counted, ap length (encode-done fuel off left begin done)) in
            let item : held begin scratch ++ take n left ≡ held begin scratch ++ left =
              ap (λ c. held begin scratch ++ c) (take-part_all off left done) in
            record {
              reader = p.reader;
              returned =
                  consume-finish m r (not begin) size before scratch _ ok go
                  ∙ (λ i. some (ok, total i, item i, p.reader));
              ended = y.ended ∙ sym (final_offset-done fuel off left done);
              left = y.left;
            }
      ]

  -- Consume on an encoded item, with more fuel than the item has bytes.
  pub consume-Consumes :
      (m : ℕ) (r : Reader q) (size : ℕ) (scratch item tail : List ℕ)
      → length item < m
      → r.last_record_offset ≤ block_size
      → rest r.queue ≡ encode (suc (length item)) r.last_record_offset true item ++ tail
      → Consumes
          (size + length (encode (suc (length item)) r.last_record_offset true item))
          item
          (final_offset (suc (length item)) r.last_record_offset item)
          tail
          (consume q m r size scratch)
  unfolding consume
  consume-Consumes m r size scratch item tail h b e =
      loop-Consumes (suc (length item)) m r true size [] scratch item tail (omega arith) h b e
