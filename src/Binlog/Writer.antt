-- ===== src/Binlog/Writer.antt =====
-- BinlogWriter of src/common/zp_binlog.cc. `none` stands for a failed assert and for exhausted fuel;
-- an int is a number, which block_offset_ never leaves the range of.
pub mod Encodes
pub mod Blank
pub mod Total
use zeppelin.Base.{
  ℕ, zero, suc, ◌+◌, ◌-◌, ◌%◌, Bool, true, false, ◌&&◌, Option, none, some, List, [], length, take,
  drop, replicate, ltb, leb, ◌==◌, if◌then◌else◌,
}
use zeppelin.Env.{Status, end_file, invalid_argument, is_ok, WritableFiles}
use zeppelin.Binlog.Format.{
  block_size, header_size, RecordType, full_type, first_type, middle_type, last_type, empty_type,
  header,
}

pub record Writer (w : WritableFiles) : Type 0 where
  pub queue : w.File
  pub block_offset : ℕ

-- What an operation leaves: its status, the writer and the bytes counted in *write_size.
abbrev pub Written : WritableFiles → Type 0
Written w = Option (Status × Writer w × ℕ)

abbrev pub record_type : Bool → Bool → RecordType
record_type true true = full_type
record_type true false = first_type
record_type false true = last_type
record_type false false = middle_type

-- `left < avail ? left : avail`
abbrev pub fragment_length : ℕ → ℕ → ℕ
fragment_length left avail = if ltb left avail then left else avail

module _ (w : WritableFiles) where
  -- Load, and the constructor that calls it.
  unfoldable pub load : w.File → Writer w
  load f = record { queue = f; block_offset = w.file_size f % block_size }

  -- Fallback
  unfoldable pub fallback : Writer w → ℕ → Status × Writer w
  fallback r offset =
      if ltb (w.file_size r.queue) offset
      then (end_file, r)
      else (let (s, f) = w.trim r.queue offset in
          (s, if is_ok s then load f else record r { queue = f }))

  -- The rest of a chain of calls, which goes on only after a success.
  abbrev pub then_ok : Status × w.File → (w.File → Status × w.File) → Status × w.File
  then_ok (s, f) next = elim (is_ok s) [ true ↦ next f | false ↦ (s, f) ]

  -- EmitPhysicalRecord; `data` is the n bytes at ptr. A failed append counts as written too.
  unfoldable pub emit_physical_record : Writer w → RecordType → List ℕ → ℕ → Written w
  emit_physical_record r t bytes write_size =
      let n = length bytes in
      let (s, f) =
        then_ok (w.append r.queue (header n t)) (λ g. then_ok (w.append g bytes) w.flush) in
      if leb n 0xffffff && leb (r.block_offset + header_size + n) block_size
      then some (
        s,
        record { queue = f; block_offset = r.block_offset + (header_size + n) },
        write_size + (header_size + n),
      )
      else none

  -- The start of a round: a block with no room for a record is filled up with zeros. The status of
  -- that append is not looked at.
  unfoldable pub pad_block : Writer w → ℕ → Writer w × ℕ
  pad_block r write_size =
      let leftover = block_size - r.block_offset in
      if leb leftover header_size
      then (
        record {
          queue = if ltb 0 leftover then (w.append r.queue (replicate leftover 0)).1 else r.queue;
          block_offset = 0;
        },
        write_size + leftover,
      )
      else (r, write_size)

  -- `avail` of a round.
  unfoldable pub available : Writer w → ℕ
  available r = block_size - r.block_offset - header_size

  -- One round of the loop of Produce, from the assert to the call of EmitPhysicalRecord.
  unfoldable pub produce_round : Writer w → Bool → List ℕ → ℕ → Written w
  produce_round r begin left write_size =
      let (p, size) = pad_block r write_size in
      let n = fragment_length (length left) (available p) in
      if leb r.block_offset block_size
      then emit_physical_record p (record_type begin (length left == n)) (take n left) size
      else none

  -- What is left after a round that started with `left`.
  unfoldable pub left_after : Writer w → List ℕ → List ℕ
  left_after r left = drop (fragment_length (length left) (available (pad_block r 0).0)) left

  -- The loop of Produce; `left` is the bytes from ptr on.
  unfoldable pub produce_loop : ℕ → Writer w → Bool → List ℕ → ℕ → Written w
  produce_loop zero r begin left write_size = none
  produce_loop (suc fuel) r begin left write_size = elim (produce_round r begin left write_size) [
    | none ↦ none
    | some (s, r', size) ↦ elim (is_ok s && ltb 0 (length (left_after r left))) [
      | true ↦ produce_loop fuel r' false (left_after r left) size
      | false ↦ some (s, r', size)
    ]
  ]

  -- Produce: each round but the last takes at least one byte.
  unfoldable pub produce : Writer w → List ℕ → Written w
  produce r item = produce_loop (suc (length item)) r true item 0

  -- One round of the loop of AppendBlank.
  unfoldable pub blank_round : Writer w → ℕ → ℕ → Written w
  blank_round r left write_size =
      let (p, size) = pad_block r write_size in
      let n = fragment_length left (available p) in
      if leb r.block_offset block_size
      then emit_physical_record p empty_type (replicate n 0) size
      else none

  unfoldable pub blank_left : Writer w → ℕ → ℕ
  blank_left r left = left - fragment_length left (available (pad_block r 0).0)

  unfoldable pub blank_loop : ℕ → Writer w → ℕ → ℕ → Written w
  blank_loop zero r left write_size = none
  blank_loop (suc fuel) r left write_size = elim (blank_round r left write_size) [
    | none ↦ none
    | some (s, r', size) ↦ elim (is_ok s && ltb 0 (blank_left r left)) [
      | true ↦ blank_loop fuel r' (blank_left r left) size
      | false ↦ some (s, r', size)
    ]
  ]

  -- AppendBlank; *write_size is left as it was where the length is refused.
  unfoldable pub append_blank : Writer w → ℕ → ℕ → Written w
  append_blank r len write_size =
      if ltb len header_size
      then some (invalid_argument, r, write_size)
      else blank_loop (suc len) r (len - header_size) 0
