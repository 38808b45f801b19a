-- ===== src/Node/Sync.antt =====
-- Replication of class Partition, src/node/zp_data_partition.cc: the slave's connection state, the
-- items that it takes from its master, and the recovery from a lost connection. `none` stands for a
-- failed assert.
pub mod Replica
use zeppelin.Base.{
  ℕ, zero, suc, ◌+◌, ◌-◌, ◌*◌, ◌%◌, ◌^◌, Bool, true, false, ◌&&◌, ◌||◌, not, Option, none, some,
  List, [], ◌∷◌, ltb, leb, ◌==◌, if◌then◌else◌,
}
use zeppelin.Env.{Status}
use zeppelin.Node.World.{Node, node_eq, BinlogOffset, offset_eq, offset_lt, Code, World}
use zeppelin.Node.Partition.{
  Partition, Disk, FallbackInfo, Role, ReplState, slave, no_connect, should_connect, connected,
  wait_dbsync, role_eq, repl_eq, become_slave, reset_recover_sync, recover_sync_delay_cron_count,
  stuck_recover_sync_delay_cron_count,
}

-- PartitionSyncOption: the address of the sender, as a node, and the position of the item.
pub record SyncOption : Type 0 where
  pub from_node : Node
  pub at : BinlogOffset

module _ (w : World) where
  -- ShouldWaitDBSync, ShouldTrySync
  unfoldable pub should_wait_dbsync : Partition w → Bool
  should_wait_dbsync p = repl_eq p.repl_state wait_dbsync

  unfoldable pub should_try_sync : Partition w → Bool
  should_try_sync p = repl_eq p.repl_state should_connect

  -- SetWaitDBSync, WaitDBSyncDone and TrySyncDone, each behind its assert.
  unfoldable pub set_wait_dbsync : Partition w → Option (Partition w)
  set_wait_dbsync p =
      if repl_eq p.repl_state should_connect
      then some (record p { repl_state = wait_dbsync })
      else none

  unfoldable pub wait_dbsync_done : Partition w → Option (Partition w)
  wait_dbsync_done p =
      if repl_eq p.repl_state wait_dbsync
      then some (record p { repl_state = should_connect })
      else none

  unfoldable pub try_sync_done : Partition w → Option (Partition w)
  try_sync_done p =
      if repl_eq p.repl_state should_connect
      then some (record p { repl_state = connected })
      else none

  -- CheckSyncOption at the time `now`. The source compares the addresses as printed.
  unfoldable pub check_sync_option : ℕ → Partition w → SyncOption → Bool × Partition w
  check_sync_option now p option =
      if not (node_eq option.from_node p.master_node)
      then (false, p)
      else if not p.opened || not (role_eq p.role slave) || not (repl_eq p.repl_state connected)
      then (false, p)
      else let q = record p { last_sync_time = now } in
        if not (offset_eq option.at (w.position p.log))
        then (
          false,
          if offset_lt (w.position p.log) option.at
              then record q { do_recovery_sync = true }
              else q,
        )
        else (true, reset_recover_sync w q)

  -- The engine and the binlog after a command; the status of Put is only logged.
  abbrev pub logged : Partition w → w.Db → Option (Status × w.Log) → Option (Partition w)
  logged p db none = none
  logged p db (some (s, log)) = some (record p { db = db; log = log })

  -- DoBinlogCommand
  unfoldable pub do_binlog_command : ℕ → Partition w → SyncOption → w.Request → Option (Partition w)
  do_binlog_command now p option req =
      let (taken, q) = check_sync_option now p option in
      elim taken [ true ↦ logged q (w.run req q.db).1 (w.put q.log (w.raw req)) | false ↦ some q ]

  -- DoBinlogSkip
  unfoldable pub do_binlog_skip : ℕ → Partition w → SyncOption → ℕ → Option (Partition w)
  do_binlog_skip now p option gap =
      let (taken, q) = check_sync_option now p option in
      elim taken [ true ↦ logged q q.db (w.put_blank q.log gap) | false ↦ some q ]

  -- DoBinlogLeaseRenew
  unfoldable pub do_binlog_lease_renew : ℕ → Partition w → SyncOption → ℕ → Partition w
  do_binlog_lease_renew now p option lease =
      let (taken, q) = check_sync_option now p option in
      elim taken [ true ↦ record q { sync_lease = lease } | false ↦ q ]

  -- NeedRecoverSync at the time `now`, in microseconds; the differences are of uint64_t.
  unfoldable pub need_recover_sync : ℕ → Partition w → Bool × Partition w
  need_recover_sync now p =
      if not (role_eq p.role slave)
      then (false, p)
      else if not (repl_eq p.repl_state connected)
      then (
        ltb stuck_recover_sync_delay_cron_count (p.stuck_recover_sync_flag + 1),
        record p { stuck_recover_sync_flag = p.stuck_recover_sync_flag + 1 },
      )
      else let q =
          if p.do_recovery_sync
          then record p { recover_sync_flag = p.recover_sync_flag + 1 }
          else p in
        if p.do_recovery_sync && ltb recover_sync_delay_cron_count q.recover_sync_flag
        then (true, q)
        else (
          ltb (p.sync_lease * 1000 * 1000 % 2 ^ 64) ((now + 2 ^ 64 - p.last_sync_time) % 2 ^ 64),
          q,
        )

  -- The part of DoTimingTask after PurgeLogs, which has to have been scheduled.
  unfoldable pub maybe_try_sync : Disk w → ℕ → Partition w → Option (Partition w)
  maybe_try_sync disk now p =
      let (needed, q) = need_recover_sync now p in
      elim needed [ true ↦ become_slave w disk now q | false ↦ some q ]

  -- SetBinlogOffset at the time `now`: a move back is recorded.
  unfoldable pub set_binlog_offset : ℕ → Partition w → BinlogOffset → Option (Partition w)
  set_binlog_offset now p target = elim (w.set_position p.log target p.purged_index) [
    | none ↦ none
    | some (log, old, index) ↦
        let q = record p { log = log; purged_index = index } in
        some (
          if offset_lt target old
          then record q { fallback = record { time = now; before = old; after = target } }
          else q)
  ]
