-- ===== src/Node/Sender.antt =====
-- class ZPBinlogSendTask and the calls of it in ZPBinlogSendThread, src/node/zp_binlog_sender.cc: a
-- task that reads the binlog of a partition and sends it to one slave. The binlog's files are
-- parameters, as is the position of the partition's producer; `none` stands for a failed assert and
-- for exhausted fuel. reader_ and queue_ are NULL together.
pub mod Pool
pub mod Follows
use Prim.Native.String.{String}
use zeppelin.Base.{
  ℕ, zero, suc, ◌+◌, ◌-◌, ◌*◌, ◌/◌, ◌%◌, ◌^◌, Bool, true, false, ◌&&◌, ◌||◌, not, Option, none,
  some, List, [], ◌∷◌, length, ltb, ◌==◌, if◌then◌else◌,
}
use zeppelin.Env.{Status, ok, end_file, io_error, invalid_argument, is_ok, SequentialFiles}
use zeppelin.Binlog.Reader.{Reader, consume, seek, skip_next_block, is_end_file, is_incomplete}
use zeppelin.Node.World.{Node, BinlogOffset, offset_eq}

pub record Task (q : SequentialFiles) : Type 0 where
  pub send_next : Bool
  pub sequence : ℕ
  pub name : String
  pub filenum : ℕ
  pub offset : ℕ
  pub process_error_time : ℕ
  pub pre_filenum : ℕ
  pub pre_offset : ℕ
  pub pre_content : List ℕ
  pub pre_has_content : Bool
  pub reader : Option (Reader q)

-- kBinlogTimeSlice, kBinlogRedundantLease, kBinlogMinLease, in seconds
abbrev pub binlog_time_slice : ℕ
binlog_time_slice = 5

abbrev pub binlog_redundant_lease : ℕ
binlog_redundant_lease = 10

abbrev pub binlog_min_lease : ℕ
binlog_min_lease = 20

-- A SyncRequest, without the epoch and the address of the sender: its type, with the bytes of the
-- command, the gap or the lease, and the position.
pub data Message : Type 0 where
  command : BinlogOffset → List ℕ → Message
  skip lease : BinlogOffset → ℕ → Message

-- The files of one binlog: NewSequentialFile, whose file counts where it succeeds, and FileExists.
pub record BinlogFiles (q : SequentialFiles) : Type 0 where
  pub open_file : ℕ → Status × q.File
  pub exists : ℕ → Bool

-- The fuel for the loop of one Consume, and for that of Seek.
pub record Fuel : Type 0 where
  pub records : ℕ
  pub rounds : ℕ

module _ (q : SequentialFiles) where
  -- A BinlogReader on a file from its start.
  abbrev pub reader_on : q.File → Reader q
  reader_on f = record { queue = f; last_record_offset = 0 }

  -- The constructor
  abbrev pub new_task : ℕ → String → ℕ → ℕ → Task q
  new_task sequence name filenum offset = record {
    send_next = true;
    sequence = sequence;
    name = name;
    filenum = filenum;
    offset = offset;
    process_error_time = 0;
    pre_filenum = 0;
    pre_offset = 0;
    pre_content = [];
    pre_has_content = false;
    reader = none;
  }

  abbrev pub sought : Task q → Option (Status × Reader q) → Option (Status × Option (Task q))
  sought t none = none
  sought t (some (s, r)) = some (s, if is_ok s then some (record t { reader = some r }) else none)

  -- Create, with Init
  unfoldable pub create :
      Fuel → BinlogFiles q → ℕ → String → ℕ → ℕ → Option (Status × Option (Task q))
  create fuel files sequence name filenum offset =
      if is_ok (files.open_file filenum).0
      then sought (new_task sequence name filenum offset)
          (seek q fuel.records fuel.rounds (reader_on (files.open_file filenum).1) offset)
      else some (io_error, none)

  -- RecordPreOffset
  abbrev pub record_pre_offset : Task q → Task q
  record_pre_offset t = record t { pre_filenum = t.filenum; pre_offset = t.offset }

  -- The rest of ProcessTask after Consume returned anything but EndFile.
  unfoldable pub after_consume : Task q → Status → ℕ → List ℕ → Reader q → Status × Task q
  after_consume t s consumed item r =
      let (r', consumed') =
        if is_ok s || is_incomplete s then (r, consumed) else skip_next_block q r consumed in
      (
        ok,
        record t {
          pre_content = item;
          pre_has_content = is_ok s;
          offset = (t.offset + consumed') % 2 ^ 64;
          reader = some r';
        },
      )

  -- ProcessTask; `position` is that of the partition's producer, if the partition is there and open.
  -- The fuel bounds how often it rolls to the next file.
  unfoldable pub process_task :
      ℕ → Fuel → BinlogFiles q → Option BinlogOffset → Task q → Option (Status × Task q)
  process_task zero fuel files position t = none
  process_task (suc rolls) fuel files position t = elim t.reader [
    | none ↦ some (invalid_argument, t)
    | some r ↦ elim position [
      | none ↦ some (invalid_argument, t)
      | some p ↦ elim (offset_eq (record { filenum = t.filenum; offset = t.offset }) p) [
        | true ↦ some (end_file, t)
        | false ↦ elim (consume q fuel.records r 0 t.pre_content) [
          | none ↦ none
          | some (s, consumed, item, r') ↦
              let t' = record (record_pre_offset t) { pre_content = item; reader = some r' } in
              let num = (t.filenum + 1) % 2 ^ 32 in
              elim (is_end_file s) [
                | false ↦ some (after_consume t' s consumed item r')
                | true ↦ elim (files.exists num) [
                  | false ↦ some (end_file, t')
                  | true ↦ elim (is_ok (files.open_file num).0) [
                    | false ↦ some ((files.open_file num).0, record t' { reader = none })
                    | true ↦ process_task rolls fuel files (some p) (record t' {
                      reader = some (reader_on (files.open_file num).1);
                      filenum = num;
                      offset = 0;
                    })
                  ]
                ]
              ]
        ]
      ]
    ]
  ]

  -- Fallback2PreOffset
  unfoldable pub fallback_to_pre : Task q → Task q
  fallback_to_pre t = record t { filenum = t.pre_filenum; offset = t.pre_offset }

  -- BuildCommonSyncRequest
  unfoldable pub build_common : Task q → Option Message
  build_common t =
      let at : BinlogOffset = record { filenum = t.pre_filenum; offset = t.pre_offset } in
      if t.pre_has_content
      then if length t.pre_content == 0 then none else some (command at t.pre_content)
      else some (skip at ((t.offset + 2 ^ 64 - t.pre_offset) % 2 ^ 64))

  -- RenewPeerLease and BuildLeaseSyncRequest, with the number of tasks and of sender threads.
  unfoldable pub build_lease : ℕ → ℕ → Task q → Message
  build_lease size sender_count t =
      let time = size * binlog_time_slice / sender_count + binlog_redundant_lease in
      lease (record { filenum = t.filenum; offset = t.offset })
        (if ltb time binlog_min_lease then binlog_min_lease else time)

  -- One pass of the inner loop of ThreadMain, up to SendToPeer: a status, the message to send if the
  -- status is OK, and the task.
  abbrev pub Turn : Type 0
  Turn = Option (Status × Option Message × Task q)

  abbrev pub messaged : Task q → Option Message → Turn
  messaged t none = none
  messaged t (some m) = some (ok, some m, t)

  abbrev pub processed : ℕ → Option (Status × Task q) → Turn
  processed now none = none
  processed now (some (s, t)) = elim (is_ok s) [
    | true ↦ messaged t (build_common t)
    | false ↦ some (s, none, record t { process_error_time = now })
  ]

  unfoldable pub turn : ℕ → Fuel → BinlogFiles q → Option BinlogOffset → ℕ → Task q → Turn
  turn rolls fuel files position now t = elim t.send_next [
    | true ↦ processed now (process_task rolls fuel files position t)
    | false ↦ messaged t (build_common t)
  ]

  -- sreq.IsInitialized(): `parses` is whether ParseFromArray makes a CmdRequest of the bytes with
  -- all its required fields. The rest of the message is always set.
  abbrev pub is_initialized : (List ℕ → Bool) → Message → Bool
  is_initialized parses (command at bytes) = parses bytes
  is_initialized parses (skip at n) = true
  is_initialized parses (lease at n) = true

  -- The pass from there on: the message that is sent, and the task. A message that is not
  -- initialised is not sent; `sent` is whether SendToPeer succeeds, where it is called.
  unfoldable pub after_send : (List ℕ → Bool) → Message → Bool → Task q → Option Message × Task q
  after_send parses m sent t =
      if not (is_initialized parses m)
      then (none, record t { send_next = false })
      else if not sent
      then (none, record t { send_next = false })
      else (some m, record t { send_next = true })

  -- The task where its time is over.
  unfoldable pub switch_task : Task q → Task q
  switch_task t = if t.send_next then t else fallback_to_pre t
