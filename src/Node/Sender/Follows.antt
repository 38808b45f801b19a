-- ===== src/Node/Sender/Follows.antt =====
-- ZPBinlogSendTask of src/node/zp_binlog_sender.cc on a binlog file that holds encoded items.
use zeppelin.Base.{
  ℕ, zero, suc, ◌+◌, ◌%◌, ◌^◌, ◌≤◌, ◌<◌, ◌≡◌, refl, sym, ap, ◌∙◌, Bool, true, false, Option, none,
  some, List, [], ◌∷◌, ◌++◌, length, length-append, take, replicate, ltb, ◌==◌, arith,
}
use zeppelin.Env.{Status, ok, end_file, SequentialFiles, SequentialLaws}
use zeppelin.Binlog.Reader.{Reader}
use zeppelin.Binlog.Reader.Decodes.{consume-Consumes}
use zeppelin.Binlog.Format.{block_size, header, length-header}
use zeppelin.Binlog.Writer.{record_type}
use zeppelin.Binlog.Encoding.{
  encode, piece, part, gap, rest_of, offset_after, final_offset, final_offset-le,
}
use zeppelin.Node.World.{BinlogOffset, offset_eq}
use zeppelin.Node.Sender.{
  Task, Message, command, BinlogFiles, Fuel, process_task, after_consume, build_common, turn,
  processed, messaged, after_send, is_initialized,
}

-- The bytes of items that follow each other from an offset within a block, and where each starts in
-- its file.
abbrev pub encoded : ℕ → List ℕ → List ℕ
encoded off item = encode (suc (length item)) off true item

abbrev pub next_offset : ℕ → List ℕ → ℕ
next_offset off item = final_offset (suc (length item)) off item

abbrev pub stream : ℕ → List (List ℕ) → List ℕ
stream off [] = []
stream off (item ∷ items) = encoded off item ++ stream (next_offset off item) items

abbrev pub commands : ℕ → ℕ → ℕ → List (List ℕ) → List Message
commands num at off [] = []
commands num at off (item ∷ items) =
    command (record { filenum = num; offset = at }) item
    ∷ commands num (at + length (encoded off item)) (next_offset off item) items

module _ (q : SequentialFiles) (laws : SequentialLaws q) (parses : List ℕ → Bool) where
  open laws use {rest}

  -- The task is to read these items next, from the offset `off` in a block.
  pub record IsBefore (t : Task q) (items : List (List ℕ)) (off : ℕ) : Type 0 where
    pub reader : Reader q
    pub has : t.reader ≡ some reader
    pub block : reader.last_record_offset ≡ off
    pub in_block : off ≤ block_size
    pub left : rest reader.queue ≡ stream off items
    pub sends : t.send_next ≡ true

  -- Turns until one has no message to send, where every call of SendToPeer succeeds: the messages
  -- that are sent, and the status of the last turn.
  abbrev pub add : Option Message → Option (List Message × Status) → Option (List Message × Status)
  add o none = none
  add none (some (ms, s)) = some (ms, s)
  add (some m) (some (ms, s)) = some (m ∷ ms, s)

  unfoldable pub sends_all :
      ℕ → ℕ → Fuel → BinlogFiles q → BinlogOffset → ℕ → Task q → Option (List Message × Status)
  sends_all zero rolls fuel files p now t = none
  sends_all (suc turns) rolls fuel files p now t = elim (turn q rolls fuel files (some p) now t) [
    | none ↦ none
    | some (s, none, t') ↦ some ([], s)
    | some (s, some m, t') ↦
        let (sent, u) = after_send q parses m true t' in
        add sent (sends_all turns rolls fuel files p now u)
  ]

  encoded-pos : (off : ℕ) (item : List ℕ) → 0 < length (encoded off item)
  unfolding encode piece
  encoded-pos off item =
      let n = part off (length item) in
      let h = header n (record_type true (length item == n)) in
      let later : List ℕ = elim (ltb 0 (length (rest_of off item))) [
        | true ↦ encode (length item) (offset_after off (length item)) false (rest_of off item)
        | false ↦ []
      ] in
      omega (
        arith,
        length-header n (record_type true (length item == n)),
        length-append h (take n item),
        length-append (replicate (gap off) 0) (h ++ take n item),
        length-append (replicate (gap off) 0 ++ (h ++ take n item)) later,
      )

  process_task-item :
      (rolls : ℕ) (fuel : Fuel) (files : BinlogFiles q) (p : BinlogOffset) (t : Task q) (off : ℕ)
      (item tail : List ℕ) (r : Reader q)
      → t.reader ≡ some r
      → r.last_record_offset ≡ off
      → off ≤ block_size
      → rest r.queue ≡ encoded off item ++ tail
      → length item < fuel.records
      → offset_eq (record { filenum = t.filenum; offset = t.offset }) p ≡ false
      → (r' : Reader q) × (process_task q (suc rolls) fuel files (some p) t
          ≡ some (
            ok,
            record t {
              pre_filenum = t.filenum;
              pre_offset = t.offset;
              pre_content = item;
              pre_has_content = true;
              offset = (t.offset + length (encoded off item)) % 2 ^ 64;
              reader = some r';
            },
          ))
        × (r'.last_record_offset ≡ next_offset off item)
        × (rest r'.queue ≡ tail)
  unfolding process_task after_consume
  process_task-item rolls fuel files p t off item tail r has block within left enough apart =
      let c =
        consume-Consumes q laws fuel.records r 0 t.pre_content item tail enough
          (omega (arith, block, within))
          (left ∙ ap (λ (o : ℕ). encoded o item ++ tail) (sym block)) in
      (
        c.reader,
        rw (has, apart, c.returned, process_task)
            (ap
              (λ (n : ℕ). some (
                ok,
                record t {
                  pre_filenum = t.filenum;
                  pre_offset = t.offset;
                  pre_content = item;
                  pre_has_content = true;
                  offset = (t.offset + n) % 2 ^ 64;
                  reader = some c.reader;
                },
              ))
              (omega (arith, ap (λ (o : ℕ). length (encoded o item)) block))),
        c.ended ∙ ap (λ (o : ℕ). next_offset o item) block,
        c.left,
      )

  abbrev pub AllSendable : ℕ → List (List ℕ) → Type 0
  AllSendable m [] = Unit
  AllSendable m (item ∷ items) =
      (0 < length item) × (length item < m) × (parses item ≡ true) × AllSendable m items

  turn-sends :
      (rolls : ℕ) (fuel : Fuel) (files : BinlogFiles q) (p : BinlogOffset) (now : ℕ) (t : Task q)
      → t.send_next ≡ true
      → turn q rolls fuel files (some p) now t
        ≡ processed q now (process_task q rolls fuel files (some p) t)
  unfolding turn
  turn-sends rolls fuel files p now t sends = rw sends

  build_common-command :
      (u : Task q)
      → u.pre_has_content ≡ true
      → 0 < length u.pre_content
      → build_common q u
        ≡ some (command (record { filenum = u.pre_filenum; offset = u.pre_offset }) u.pre_content)
  unfolding build_common
  build_common-command u full long = ground arith

  -- A task whose turn it is to send an item.
  turn-item :
      (rolls : ℕ) (fuel : Fuel) (files : BinlogFiles q) (p : BinlogOffset) (now : ℕ) (t u : Task q)
      → t.send_next ≡ true
      → process_task q rolls fuel files (some p) t ≡ some (ok, u)
      → u.pre_has_content ≡ true
      → 0 < length u.pre_content
      → turn q rolls fuel files (some p) now t
        ≡ some (
          ok,
          some (command (record { filenum = u.pre_filenum; offset = u.pre_offset }) u.pre_content),
          u,
        )
  turn-item rolls fuel files p now t u sends made full long =
      turn-sends rolls fuel files p now t sends
      ∙ (ap (processed q now) made
          ∙ ap (λ (o : Option Message). messaged q u o) (build_common-command u full long))

  process_task-end :
      (rolls : ℕ) (fuel : Fuel) (files : BinlogFiles q) (p : BinlogOffset) (t : Task q)
      (r : Reader q)
      → t.reader ≡ some r
      → offset_eq (record { filenum = t.filenum; offset = t.offset }) p ≡ true
      → process_task q (suc rolls) fuel files (some p) t ≡ some (end_file, t)
  unfolding process_task
  process_task-end rolls fuel files p t r has here = simp (has, here, process_task)

  sends_all-item :
      (turns rolls : ℕ) (fuel : Fuel) (files : BinlogFiles q) (p : BinlogOffset) (now : ℕ)
      (t u : Task q) (m : Message)
      → turn q rolls fuel files (some p) now t ≡ some (ok, some m, u)
      → is_initialized q parses m ≡ true
      → sends_all (suc turns) rolls fuel files p now t
        ≡ add (some m) (sends_all turns rolls fuel files p now (record u { send_next = true }))
  unfolding sends_all after_send
  sends_all-item turns rolls fuel files p now t u m e full = rw (e, sends_all, after_send, full)

  sends_all-end :
      (turns rolls : ℕ) (fuel : Fuel) (files : BinlogFiles q) (p : BinlogOffset) (now : ℕ)
      (t : Task q)
      → t.send_next ≡ true
      → process_task q rolls fuel files (some p) t ≡ some (end_file, t)
      → sends_all (suc turns) rolls fuel files p now t ≡ some ([], end_file)
  unfolding sends_all
  sends_all-end turns rolls fuel files p now t sends e =
      rw (turn-sends rolls fuel files p now t sends ∙ ap (processed q now) e, sends_all)

  apart_from :
      (num at n len : ℕ) (p : BinlogOffset)
      → p.offset ≡ at + (n + len)
      → 0 < n
      → offset_eq (record { filenum = num; offset = at }) p ≡ false
  apart_from num at n len p e h = ground arith

  together :
      (num at : ℕ) (p : BinlogOffset)
      → p.filenum ≡ num
      → p.offset ≡ at
      → offset_eq (record { filenum = num; offset = at }) p ≡ true
  together num at p e f = ground arith

  -- A task that is to read the items from here to the producer's position, in one file, sends each
  -- of them in a command, in their order, with the position in the file where the item starts; then
  -- it finds no more. Every call of SendToPeer succeeds, the items are not empty, shorter than the
  -- fuel and each of them a request that is initialised, and the producer's offset is in the range
  -- of uint64_t.
  pub sends_all-commands :
      (items : List (List ℕ)) (rolls : ℕ) (fuel : Fuel) (files : BinlogFiles q) (p : BinlogOffset)
      (now : ℕ) (t : Task q) (off : ℕ)
      → IsBefore t items off
      → AllSendable fuel.records items
      → p.filenum ≡ t.filenum
      → p.offset ≡ t.offset + length (stream off items)
      → p.offset < 2 ^ 64
      → sends_all (suc (length items)) (suc rolls) fuel files p now t
        ≡ some (commands t.filenum t.offset off items, end_file)
  sends_all-commands [] rolls fuel files p now t off b all num at range =
      sends_all-end 0 (suc rolls) fuel files p now t b.sends (
        process_task-end rolls fuel files p t b.reader b.has
          (together t.filenum t.offset p num (omega (arith, at))))
  sends_all-commands (item ∷ items) rolls fuel files p now t off b (long, short, full, all) num at
        range =
      let size = length (encoded off item) in
      let after = stream (next_offset off item) items in
      let total : p.offset ≡ t.offset + (size + length after) =
        omega (arith, at, length-append (encoded off item) after) in
      let (r, made, ended, left) =
        process_task-item rolls fuel files p t off item after b.reader b.has b.block b.in_block
          b.left short
          (apart_from t.filenum t.offset size (length after) p total (encoded-pos off item)) in
      let u : Task q = record t {
        pre_filenum = t.filenum;
        pre_offset = t.offset;
        pre_content = item;
        pre_has_content = true;
        offset = (t.offset + size) % 2 ^ 64;
        reader = some r;
      } in
      let moved : (t.offset + size) % 2 ^ 64 ≡ t.offset + size = omega (arith, total, range) in
      let before : IsBefore (record u { send_next = true }) items (next_offset off item) = record {
        reader = r;
        has = refl;
        block = ended;
        in_block = final_offset-le (suc (length item)) off item b.in_block;
        left = left;
        sends = refl;
      } in
      let later =
        sends_all-commands items rolls fuel files p now (record u { send_next = true })
          (next_offset off item) before all num (omega (arith, total, moved)) range in
      sends_all-item (suc (length items)) (suc rolls) fuel files p now t u
        (command (record { filenum = t.filenum; offset = t.offset }) item)
        (turn-item (suc rolls) fuel files p now t u b.sends made refl long) full
      ∙ (ap (add (some (command (record { filenum = t.filenum; offset = t.offset }) item))) later
          ∙ ap
              (λ (n : ℕ). some (
                command (record { filenum = t.filenum; offset = t.offset }) item
                    ∷ commands t.filenum n (next_offset off item) items,
                end_file,
              ))
              moved)
