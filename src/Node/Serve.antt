-- ===== src/Node/Serve.antt =====
-- What a partition answers: commands of clients (DoCommand) and slaves that ask to follow it
-- (SlaveAskSync, GetWinBinlogOffset), src/node/zp_data_partition.cc.
pub mod Purged
use zeppelin.Base.{
  ℕ, Bool, true, false, ◌&&◌, ◌||◌, not, Option, none, some, List, [], ◌∷◌, ltb, if◌then◌else◌,
}
use zeppelin.Env.{Status, end_file, corruption, incomplete}
use zeppelin.Node.World.{Node, BinlogOffset, offset_lt, Code, World}
use zeppelin.Node.Partition.{
  Partition, try_db_sync, add_binlog_send_task, PState, master, role_eq, contains, shifted,
  port_shift_sync, port_shift_rsync, emit,
}
use zeppelin.Node.Sync.{logged}

-- A reply: its code, and the node that a client is redirected to.
pub record Reply : Type 0 where
  pub code : Code
  pub redirect : Option Node

abbrev pub plain : Code → Reply
plain c = record { code = c; redirect = none }

abbrev pub is_code_ok : Code → Bool
is_code_ok Code.ok = true
is_code_ok _ = false

-- Whether writes are refused: in state SLOWDOWN by the last digits of the time.
abbrev pub refuses : PState → ℕ → ℕ → Bool
refuses PState.stuck percent radio = true
refuses PState.slowdown percent radio = ltb radio percent
refuses PState.active percent radio = false

module _ (w : World) where
  abbrev pub replied : Code → Option (Partition w) → Option (Reply × Partition w)
  replied c none = none
  replied c (some p) = some (plain c, p)

  abbrev pub log_write : Partition w → Code → w.Db → Option (List ℕ) → Option (Partition w)
  log_write p c db none = some (record p { db = db })
  log_write p c db (some bytes) = elim (is_code_ok c) [
    | true ↦ logged w p db (w.put p.log bytes)
    | false ↦ some (record p { db = db })
  ]

  -- DoCommand; `percent` is NowMicros() % 100, and `radio` slowdown_delay_radio of the configuration.
  unfoldable pub do_command : ℕ → ℕ → Partition w → w.Request → Option (Reply × Partition w)
  do_command percent radio p req =
      if not p.opened || not (role_eq p.role master)
      then some (record { code = Code.move; redirect = some p.master_node }, p)
      else if w.is_write req && refuses p.pstate percent radio
      then some (plain Code.wait, p)
      else let (c, db) = w.run req p.db in
        if w.is_write req
        then replied c (log_write p c db (w.generate_log req))
        else some (plain c, record p { db = db })

  -- SlaveAskSync; `send_task` is what AddBinlogSendTask answers.
  unfoldable pub slave_ask_sync :
      (Node → BinlogOffset → Status) → Partition w → Node → BinlogOffset → Status × Partition w
  slave_ask_sync send_task p node boffset =
      if not (role_eq p.role master) || not (contains node p.slave_nodes)
      then (corruption, p)
      else if offset_lt (w.position p.log) boffset
      then (end_file, p)
      else if ltb boffset.filenum p.purged_index
      then (incomplete, emit w p (try_db_sync (shifted port_shift_rsync node) ∷ []))
      else (
        send_task (shifted port_shift_sync node) boffset,
        emit w p (add_binlog_send_task (shifted port_shift_sync node) ∷ []),
      )

  -- GetWinBinlogOffset
  unfoldable pub get_win_binlog_offset : Partition w → BinlogOffset → Bool × BinlogOffset
  get_win_binlog_offset p win =
      if role_eq p.role master then (true, p.win_boffset) else (false, win)
