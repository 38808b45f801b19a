-- ===== src/Binlog/RoundTrip.antt =====
-- BinlogWriter::Produce and BinlogReader::Consume of src/common/zp_binlog.cc together: drivers that
-- write a list of items and that read until a call fails.
use zeppelin.Base.{
  ℕ, zero, suc, ◌^◌, ◌≤◌, ◌<◌, ◌≡◌, refl, sym, ap, ◌∙◌, true, false, Option, none, some, List, [],
  ◌∷◌, ◌++◌, append_assoc, append-nil, length, drop-nil, ◌-◌, ◌%◌, arith, Bool-cases, inl, inr, leb,
}
use zeppelin.Env.{
  Status, ok, end_file, is_ok, WritableFiles, WritableLaws, SequentialFiles, SequentialLaws,
}
use zeppelin.Binlog.Format.{block_size, header_size}
use zeppelin.Binlog.Writer.{Writer, produce, load}
use zeppelin.Binlog.Writer.Encodes.{produce-Wrote}
use zeppelin.Binlog.Reader.{
  Reader, consume, consume_loop, read_physical_record, header_result, skip_padding, skip_next_block,
  on_record,
}
use zeppelin.Binlog.Reader.Decodes.{consume-Consumes}
use zeppelin.Binlog.Encoding.{encode, final_offset, final_offset-le}

-- Write the items one after the other; `none` where a call does not return OK.
unfoldable pub produce_all : (w : WritableFiles) → Writer w → List (List ℕ) → Option (Writer w)
produce_all w r [] = some r
produce_all w r (item ∷ items) = elim (produce w r item) [
  | none ↦ none
  | some (s, r', size) ↦ elim (is_ok s) [ true ↦ produce_all w r' items | false ↦ none ]
]

abbrev pub cons_item : List ℕ → Option (List (List ℕ) × Status) → Option (List (List ℕ) × Status)
cons_item item none = none
cons_item item (some (items, s)) = some (item ∷ items, s)

-- Read until a call fails: the items, and the status of that call. `m` is the fuel of each call.
unfoldable pub consume_all :
    (q : SequentialFiles) → ℕ → ℕ → Reader q → Option (List (List ℕ) × Status)
consume_all q m zero r = none
consume_all q m (suc k) r = elim (consume q m r 0 []) [
  | none ↦ none
  | some (s, size, item, r') ↦ elim (is_ok s) [
    | true ↦ cons_item item (consume_all q m k r')
    | false ↦ some ([], s)
  ]
]

abbrev pub AllBelow : ℕ → List (List ℕ) → Type 0
AllBelow m [] = Unit
AllBelow m (item ∷ items) = (length item < m) × AllBelow m items

module _ (q : SequentialFiles) (laws : SequentialLaws q) where
  open laws use {rest, read_end, skip_rest}

  skip_padding-end :
      (r : Reader q) (size : ℕ) → rest r.queue ≡ [] → rest (skip_padding q r size).0.queue ≡ []
  unfolding skip_padding skip_next_block
  skip_padding-end r size e =
      elim (Bool-cases (leb (block_size - r.last_record_offset) header_size)) [
        | inl full ↦ elim (Bool-cases (leb r.last_record_offset block_size)) [
          | inl within ↦
              rw (full, within, skip_rest, e) (drop-nil (block_size - r.last_record_offset))
          | inr past ↦
              rw (full, past, skip_rest, e)
                (drop-nil (2 ^ 64 - (r.last_record_offset - block_size)))
        ]
        | inr fits ↦ rw fits e
      ]

  physical-end :
      (r : Reader q) (size : ℕ) (before : List ℕ)
      → rest r.queue ≡ []
      → (read_physical_record q r size before).type ≡ 5
  unfolding read_physical_record header_result
  physical-end r size before e =
      rw
        (read_end (skip_padding q r size).0.queue header_size
          (omega (arith, ap length (skip_padding-end r size e))))
        refl

  -- At the end of the file a read fails with EndFile.
  consume_all-end :
      (m k : ℕ) (r : Reader q)
      → 0 < m
      → rest r.queue ≡ []
      → consume_all q m (suc k) r ≡ some ([], end_file)
  unfolding consume_all consume consume_loop on_record
  consume_all-end zero k r h e = elim h [ ]
  consume_all-end (suc m) k r h e = rw (physical-end r 0 [] e, consume_all)

consume_all-step :
    (q : SequentialFiles) (m k : ℕ) (r r' : Reader q) (size : ℕ) (item : List ℕ)
    → consume q m r 0 [] ≡ some (ok, size, item, r')
    → consume_all q m (suc k) r ≡ cons_item item (consume_all q m k r')
unfolding consume_all
consume_all-step q m k r r' size item e = rw (e, consume_all)

module _ (w : WritableFiles) (wlaws : WritableLaws w) (q : SequentialFiles)
    (qlaws : SequentialLaws q) where
  open wlaws use {contents}
  open qlaws use {rest}

  -- The items were written behind what the file held, and a reader that stands where the writer
  -- stood reads them back.
  record RoundTrip (m : ℕ) (r : Writer w) (items : List (List ℕ)) : Type 0 where
    writer : Writer w
    bytes : List ℕ
    written : produce_all w r items ≡ some writer
    appended : contents writer.queue ≡ contents r.queue ++ bytes
    read_back :
        (reader : Reader q)
        → reader.last_record_offset ≡ r.block_offset
        → rest reader.queue ≡ bytes
        → consume_all q m (suc (length items)) reader ≡ some (items, end_file)

  round_trip :
      (m : ℕ) (r : Writer w) (items : List (List ℕ))
      → 0 < m
      → r.block_offset ≤ block_size
      → AllBelow m items
      → RoundTrip m r items
  unfolding produce_all
  round_trip m r [] h k b = record {
    writer = r;
    bytes = [];
    written = refl;
    appended = sym (append-nil (contents r.queue));
    read_back = λ reader _ e. consume_all-end q qlaws m 0 reader h e;
  }
  round_trip m r (item ∷ items) h k b =
      let e = produce-Wrote w wlaws r item k in
      let next =
        round_trip m e.writer items h
          (rw e.ended (final_offset-le (suc (length item)) r.block_offset item k)) b.1 in
      let head = encode (suc (length item)) r.block_offset true item in
      record {
        writer = next.writer;
        bytes = head ++ next.bytes;
        written = rw (e.returned, produce_all) next.written;
        appended =
            next.appended
            ∙ (ap (λ c. c ++ next.bytes) e.wrote ∙ append_assoc (contents r.queue) head next.bytes);
        read_back = λ reader same left.
            let d =
              consume-Consumes q qlaws m reader 0 [] item next.bytes b.0 (omega (arith, same, k)) (
                left
                ∙ ap (λ (o : ℕ). encode (suc (length item)) o true item ++ next.bytes)
                    (sym same)) in
            consume_all-step q m (suc (length items)) reader d.reader _ item d.returned
            ∙ ap (cons_item item) (
                next.read_back d.reader
                  (d.ended
                    ∙ (ap (λ (o : ℕ). final_offset (suc (length item)) o item) same ∙ sym e.ended))
                  d.left);
      }

  -- A BinlogWriter on an empty file whose operations succeed writes every item of a list, each with
  -- status OK, no assert failing. A BinlogReader on the written file, with more fuel than any item
  -- has bytes, returns exactly these items in their order, and then EndFile.
  pub consume_all-produce_all :
      (m : ℕ) (f : w.File) (items : List (List ℕ)) (opened : w.File → q.File)
      → 0 < m
      → AllBelow m items
      → contents f ≡ []
      → ((g : w.File) → rest (opened g) ≡ contents g)
      → (r : Writer w) × (produce_all w (load w f) items ≡ some r)
        × (consume_all q m
              (suc (length items))
              (record { queue = opened r.queue; last_record_offset = 0 })
            ≡ some (items, end_file))
  unfolding load
  consume_all-produce_all m f items opened h b empty open_rest =
      let at_start : w.file_size f % block_size ≡ 0 =
        omega (arith, wlaws.file_size_length f, ap length empty) in
      let x = round_trip m (load w f) items h (omega arith) b in
      (
        x.writer,
        x.written,
        x.read_back (record { queue = opened x.writer.queue; last_record_offset = 0 })
            (sym at_start) (open_rest x.writer.queue ∙ (x.appended ∙ ap (λ c. c ++ x.bytes) empty)),
      )
