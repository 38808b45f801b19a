-- ===== src/Binlog/Reader.antt =====
-- BinlogReader of src/common/zp_binlog.cc. *size and *scratch are passed and returned; `none` stands
-- for exhausted fuel.
pub mod Decodes
use zeppelin.Base.{
  ℕ, zero, suc, ◌+◌, ◌-◌, ◌*◌, ◌/◌, ◌%◌, ◌^◌, Bool, true, false, ◌||◌, Option, none, some, List, [],
  ◌++◌, ltb, leb, if◌then◌else◌,
}
use zeppelin.Env.{
  Status, ok, invalid_argument, io_error, incomplete, end_file, is_ok, SequentialFiles,
}
use zeppelin.Binlog.Format.{
  block_size, header_size, RecordType, zero_type, full_type, first_type, middle_type, last_type,
  eof, bad_record, empty_type, code, of_code, header_length, header_type,
}

-- BinlogBlockStart
unfoldable pub binlog_block_start : ℕ → ℕ
binlog_block_start offset = offset / block_size * block_size

pub record Reader (q : SequentialFiles) : Type 0 where
  pub queue : q.File
  pub last_record_offset : ℕ

-- What one call of ReadPhysicalRecord leaves: the type, *size, *result and the reader.
pub record Physical (q : SequentialFiles) : Type 0 where
  pub type : ℕ
  pub size : ℕ
  pub fragment : List ℕ
  pub reader : Reader q

-- What a record does to the loop of Consume: return a status, or go on.
pub data Next : Type 0 where
  finish : Status → List ℕ → Next
  go_on : List ℕ → Next

-- The switch of Consume, over inside_record, the fragment and *scratch. Going on sets inside_record.
unfoldable pub on_record : Option RecordType → Bool → List ℕ → List ℕ → Next
on_record (some full_type) true fragment scratch = finish incomplete scratch
on_record (some full_type) false fragment scratch = finish ok fragment
on_record (some first_type) true fragment scratch = finish incomplete scratch
on_record (some first_type) false fragment scratch = go_on fragment
on_record (some middle_type) true fragment scratch = go_on (scratch ++ fragment)
on_record (some middle_type) false fragment scratch = finish incomplete scratch
on_record (some last_type) true fragment scratch = finish ok (scratch ++ fragment)
on_record (some last_type) false fragment scratch = finish incomplete scratch
on_record (some eof) inside fragment scratch = finish end_file scratch
on_record (some bad_record) inside fragment scratch = finish io_error scratch
on_record (some empty_type) inside fragment scratch = finish incomplete scratch
on_record (some zero_type) inside fragment scratch = finish io_error scratch
on_record none inside fragment scratch = finish io_error scratch

abbrev pub is_end_file : Status → Bool
is_end_file end_file = true
is_end_file _ = false

abbrev pub is_incomplete : Status → Bool
is_incomplete incomplete = true
is_incomplete _ = false

-- The type that a failed read is answered with.
abbrev pub read_failure : Status → RecordType
read_failure s = if is_end_file s then eof else bad_record

module _ (q : SequentialFiles) where
  -- SkipNextBlock. Where leftover is negative, Skip and *size take it as a uint64_t.
  unfoldable pub skip_next_block : Reader q → ℕ → Reader q × ℕ
  skip_next_block r size =
      let leftover = block_size - r.last_record_offset in
      let wrapped = 2 ^ 64 - (r.last_record_offset - block_size) in
      if leb r.last_record_offset block_size
      then (record { queue = (q.skip r.queue leftover).1; last_record_offset = 0 }, size + leftover)
      else (
        record { queue = (q.skip r.queue wrapped).1; last_record_offset = 0 },
        (size + wrapped) % 2 ^ 64,
      )

  -- The start of ReadPhysicalRecord: what is left of a block is skipped where no record fits, or
  -- where it is negative, for which the test here has 0.
  unfoldable pub skip_padding : Reader q → ℕ → Reader q × ℕ
  skip_padding r size =
      if leb (block_size - r.last_record_offset) header_size
      then skip_next_block r size
      else (r, size)

  -- The end of ReadPhysicalRecord: the read of the n bytes after the header `head`.
  unfoldable pub fragment_result : Reader q → ℕ → List ℕ → ℕ → Status × List ℕ × q.File → Physical q
  fragment_result r size head n (s, bytes, f) = elim (is_ok s) [
    | true ↦ record {
      type = header_type head;
      size = size + n;
      fragment = bytes;
      reader = record { queue = f; last_record_offset = r.last_record_offset + n };
    }
    | false ↦ record {
      type = code (read_failure s);
      size = size;
      fragment = bytes;
      reader = record r { queue = f };
    }
  ]

  unfoldable pub read_fragment : Reader q → ℕ → List ℕ → Physical q
  read_fragment r size head =
      fragment_result r size head (header_length head) (q.read r.queue (header_length head))

  -- ReadPhysicalRecord after the read of the header; *result stays as it was where that failed.
  unfoldable pub header_result : Reader q → ℕ → List ℕ → Status × List ℕ × q.File → Physical q
  header_result r size fragment (s, head, f) = elim (is_ok s) [
    | true ↦
        read_fragment
          (record { queue = f; last_record_offset = r.last_record_offset + header_size })
          (size + header_size) head
    | false ↦ record {
      type = code (read_failure s);
      size = size;
      fragment = fragment;
      reader = record r { queue = f };
    }
  ]

  -- ReadPhysicalRecord
  unfoldable pub read_physical_record : Reader q → ℕ → List ℕ → Physical q
  read_physical_record r size fragment =
      let (p, size') = skip_padding r size in
      header_result p size' fragment (q.read p.queue header_size)

  -- What Consume leaves: the status, *size, *scratch and the reader.
  abbrev pub Consumed : Type 0
  Consumed = Option (Status × ℕ × List ℕ × Reader q)

  -- The loop of Consume over inside_record, *size, the last fragment and *scratch.
  unfoldable pub consume_loop : ℕ → Reader q → Bool → ℕ → List ℕ → List ℕ → Consumed
  consume_loop zero r inside size fragment scratch = none
  consume_loop (suc fuel) r inside size fragment scratch =
      let p = read_physical_record r size fragment in
      elim (on_record (of_code p.type) inside p.fragment scratch) [
        | finish s result ↦ some (s, p.size, result, p.reader)
        | go_on result ↦ consume_loop fuel p.reader true p.size p.fragment result
      ]

  -- Consume
  unfoldable pub consume : ℕ → Reader q → ℕ → List ℕ → Consumed
  consume fuel r size scratch = consume_loop fuel r false size [] scratch

  -- The loop of Seek: `left` is block_offset while it is positive, and `fuel` bounds the records that
  -- one Consume reads. A value below zero ends the loop as one that is not available.
  unfoldable pub seek_loop : ℕ → ℕ → Reader q → ℕ → Option (Status × Reader q)
  seek_loop fuel zero r zero = some (ok, r)
  seek_loop fuel zero r (suc left) = none
  seek_loop fuel (suc rounds) r zero = some (ok, r)
  seek_loop fuel (suc rounds) r (suc left) = elim (consume fuel r 0 []) [
    | none ↦ none
    | some (s, size, _, r') ↦ elim (is_ok s || is_incomplete s) [
      | true ↦ elim (ltb (suc left) size) [
        | true ↦ some (invalid_argument, r')
        | false ↦ seek_loop fuel rounds r' (suc left - size)
      ]
      | false ↦ elim (is_end_file s) [
        | true ↦ some (invalid_argument, r')
        | false ↦
            let (r'', size') = skip_next_block r' size in
            elim (ltb (suc left) size') [
              | true ↦ some (invalid_argument, r'')
              | false ↦ seek_loop fuel rounds r'' (suc left - size')
            ]
      ]
    ]
  ]

  -- Seek
  unfoldable pub seek : ℕ → ℕ → Reader q → ℕ → Option (Status × Reader q)
  seek fuel rounds r offset =
      let (s, f) = q.skip r.queue (binlog_block_start offset) in
      elim (is_ok s) [
        | true ↦ seek_loop fuel rounds (record r { queue = f }) (offset % block_size)
        | false ↦ some (s, record r { queue = f })
      ]
