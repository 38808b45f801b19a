-- ===== src/Node/Partition.antt =====
-- class Partition of src/node/zp_data_partition.cc and .h. Each method is one step of the state that
-- state_rw_ protects; the locks are left out. Calls of the data server are recorded as effects, and
-- what they answer, the time and the files on disk are arguments. `none` stands for a failed assert
-- and for LOG(FATAL), which ends the process.
use zeppelin.Base.{
  ℕ, ◌+◌, Bool, true, false, ◌&&◌, ◌||◌, not, Option, none, some, List, [], ◌∷◌, ◌++◌, map,
  if◌then◌else◌,
}
use zeppelin.Node.World.{Node, node_eq, BinlogOffset, World}

pub data Role : Type 0 where
  single master slave : Role

pub data ReplState : Type 0 where
  no_connect should_connect connected wait_dbsync : ReplState

pub data PState : Type 0 where
  active stuck slowdown : PState

-- Calls of the data server and of the file system, with the node's sync port where one is given.
pub data Effect : Type 0 where
  add_sync_task : Effect
  add_binlog_send_task remove_binlog_send_task : Node → Effect
  try_db_sync : Node → Effect
  move_to_trash : Effect

-- `time` is 0 for no fallback.
pub record FallbackInfo : Type 0 where
  pub time : ℕ
  pub before : BinlogOffset
  pub after : BinlogOffset

pub record Partition (w : World) : Type 0 where
  pub opened : Bool
  pub master_node : Node
  pub slave_nodes : List Node
  pub pstate : PState
  pub role : Role
  pub repl_state : ReplState
  pub win_boffset : BinlogOffset
  pub do_recovery_sync : Bool
  pub recover_sync_flag : ℕ
  pub last_sync_time : ℕ
  pub sync_lease : ℕ
  pub stuck_recover_sync_flag : ℕ
  pub purged_index : ℕ
  pub fallback : FallbackInfo
  pub log : w.Log
  pub db : w.Db
  pub effects : List Effect

-- kPortShiftSync, kPortShiftRsync, kBinlogDefaultLease, kRecoverSyncDelayCronCount,
-- kStuckRecoverSyncDelayCronCount
abbrev pub port_shift_sync : ℕ
port_shift_sync = 200

abbrev pub port_shift_rsync : ℕ
port_shift_rsync = 300

abbrev pub binlog_default_lease : ℕ
binlog_default_lease = 60

abbrev pub recover_sync_delay_cron_count : ℕ
recover_sync_delay_cron_count = 7

abbrev pub stuck_recover_sync_delay_cron_count : ℕ
stuck_recover_sync_delay_cron_count = 300

abbrev pub role_eq : Role → Role → Bool
role_eq single single = true
role_eq master master = true
role_eq slave slave = true
role_eq _ _ = false

abbrev pub repl_eq : ReplState → ReplState → Bool
repl_eq no_connect no_connect = true
repl_eq should_connect should_connect = true
repl_eq connected connected = true
repl_eq wait_dbsync wait_dbsync = true
repl_eq _ _ = false

abbrev pub shifted : ℕ → Node → Node
shifted k n = record n { port = n.port + k }

-- std::set<Node>: a list in the set's order.
abbrev pub contains : Node → List Node → Bool
contains n [] = false
contains n (m ∷ ms) = node_eq m n || contains n ms

abbrev pub same_nodes : List Node → List Node → Bool
same_nodes [] [] = true
same_nodes [] (m ∷ ms) = false
same_nodes (n ∷ ns) [] = false
same_nodes (n ∷ ns) (m ∷ ms) = node_eq n m && same_nodes ns ms

abbrev pub without : Node → List Node → List Node
without n [] = []
without n (m ∷ ms) = if node_eq m n then without n ms else m ∷ without n ms

-- Those of `old` that are not in `new`.
abbrev pub missing : List Node → List Node → List Node
missing old [] = old
missing old (n ∷ ns) = missing (without n old) ns

abbrev pub any_self : (Node → Bool) → List Node → Bool
any_self is_self [] = false
any_self is_self (n ∷ ns) = is_self n || any_self is_self ns

-- The new role in Update.
unfoldable pub new_role : (Node → Bool) → Node → List Node → Role
new_role is_self master_node slaves =
    if any_self is_self slaves then slave else if is_self master_node then master else single

module _ (w : World) where
  -- What Open finds on disk: the outcome of CheckBinlogFiles with the first number if there is one,
  -- and the storage engine and the binlog that were opened.
  pub record Disk : Type 0 where
    pub checked : Bool
    pub first_index : Option ℕ
    pub engine : Option w.Db
    pub binlog : Option w.Log

  abbrev pub or_else {ℓ} : {A : Type ℓ} → Option A → A → A
  or_else none a = a
  or_else (some b) a = b

  abbrev pub install : Partition w → Disk → Option w.Db → Option w.Log → Option (Partition w)
  install p disk (some db) (some log) = some (record p {
    opened = true;
    purged_index = or_else disk.first_index p.purged_index;
    fallback = record p.fallback { time = 0 };
    log = log;
    db = db;
  })
  install p disk _ _ = none

  -- Open. A failure to create the binlog is logged as fatal too.
  unfoldable pub open_files : Partition w → Disk → Option (Partition w)
  open_files p disk =
      if p.opened
      then some p
      else if disk.checked
      then install p disk disk.engine disk.binlog
      else none

  -- Close
  unfoldable pub close : Partition w → Partition w
  close p = if p.opened then record p { opened = false } else p

  -- GetBinlogOffset: false, and the argument as it was, where the partition is closed.
  unfoldable pub get_binlog_offset : Partition w → BinlogOffset → Bool × BinlogOffset
  get_binlog_offset p o = if p.opened then (true, w.position p.log) else (false, o)

  -- ResetRecoverSync
  unfoldable pub reset_recover_sync : Partition w → Partition w
  reset_recover_sync p = record p { do_recovery_sync = false; recover_sync_flag = 0 }

  unfoldable pub emit : Partition w → List Effect → Partition w
  emit p es = record p { effects = p.effects ++ es }

  -- BecomeSingle, with enable_data_delete of the configuration
  unfoldable pub become_single : Bool → Partition w → Partition w
  become_single enable_data_delete p =
      let q = close (record p { role = single; repl_state = no_connect }) in
      if enable_data_delete then emit q (move_to_trash ∷ []) else q

  -- BecomeMaster
  unfoldable pub become_master : Disk → Partition w → Option (Partition w)
  become_master disk p = elim (open_files p disk) [
    | none ↦ none
    | some q ↦ some (record q {
      role = master;
      repl_state = no_connect;
      win_boffset = (get_binlog_offset q q.win_boffset).1;
    })
  ]

  -- BecomeSlave at the time `now`
  unfoldable pub become_slave : Disk → ℕ → Partition w → Option (Partition w)
  become_slave disk now p = elim (open_files p disk) [
    | none ↦ none
    | some q ↦ some (
        reset_recover_sync (record (emit q (add_sync_task ∷ [])) {
          role = slave;
          repl_state = should_connect;
          last_sync_time = now;
          sync_lease = binlog_default_lease;
          stuck_recover_sync_flag = 0;
        }))
  ]

  -- CleanSlaves
  unfoldable pub clean_slaves : Partition w → List Node → Partition w
  clean_slaves p old = emit p (map (λ n. remove_binlog_send_task (shifted port_shift_sync n)) old)

  -- The role part of Update.
  unfoldable pub change_role : Bool → Disk → ℕ → Partition w → Role → Bool → Option (Partition w)
  change_role enable_data_delete disk now p role' change_master =
      if role_eq p.role role'
      then (if change_master && role_eq p.role slave then become_slave disk now p else some p)
      else elim role' [
        | master ↦ become_master disk p
        | slave ↦ become_slave disk now p
        | single ↦ some (become_single enable_data_delete p)
      ]

  -- Update
  unfoldable pub update :
      Bool
      → (Node → Bool)
      → Disk
      → ℕ
      → Partition w
      → PState
      → Node
      → List Node
      → Option (Partition w)
  update enable_data_delete is_self disk now p state master_node slaves =
      let miss = if same_nodes p.slave_nodes slaves then [] else missing p.slave_nodes slaves in
      let change_master = not (node_eq p.master_node master_node) in
      let q = record p { pstate = state; master_node = master_node; slave_nodes = slaves } in
      let role' = new_role is_self master_node slaves in
      let cleaned =
        if role_eq p.role master
        then (if role_eq role' master
            then clean_slaves q miss
            else clean_slaves (clean_slaves q miss) slaves)
        else q in
      change_role enable_data_delete disk now cleaned role' change_master

  -- Leave of the node `self`
  unfoldable pub leave : Bool → Node → Partition w → Partition w
  leave enable_data_delete self p =
      let q = record p { slave_nodes = without self p.slave_nodes } in
      become_single enable_data_delete
        (if role_eq p.role master then clean_slaves q q.slave_nodes else q)
