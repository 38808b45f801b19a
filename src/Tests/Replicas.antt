-- ===== src/Tests/Replicas.antt =====
-- A master and a slave of src/node/zp_data_partition.cc, each on a binlog of src/common/zp_binlog.cc in
-- memory.
use zeppelin.Base.{
  ℕ, ◌≤◌, ◌≡◌, refl, inr, inl, Bool, true, false, Option, none, some, List, [], ◌∷◌, ◌++◌,
}
use zeppelin.Env.{Status}
use zeppelin.Binlog.Format.{header}
use zeppelin.Binlog.Version.{inc}
use zeppelin.Binlog.Writer.{
  emit_physical_record, produce, produce_loop, produce_round, pad_block, available, left_after,
}
use zeppelin.Binlog.Log.{Binlog, put, put_blank, set_producer_status, advance, maybe_roll}
use zeppelin.Node.World.{Node, BinlogOffset, Code, World}
use zeppelin.Node.Partition.{master, slave, no_connect, connected, active, Partition}
use zeppelin.Node.Serve.{plain, do_command}
use zeppelin.Node.Sync.{SyncOption}
use zeppelin.Node.Sync.Replica.{
  master_at, IsSteady, Sent, sent, IsReplica, AllSent, deliver, deliver-IsReplica,
}
use zeppelin.Tests.Instances.{directory}

abbrev log_position : Binlog directory → BinlogOffset
log_position b = record { filenum = b.version.pro_num; offset = b.version.pro_offset }

abbrev moved_to :
    Option (Binlog directory × ℕ × ℕ × ℕ × ℕ) → Option (Binlog directory × BinlogOffset × ℕ)
moved_to none = none
moved_to (some (b, actual, num, offset, start)) =
    some (b, record { filenum = num; offset = offset }, start)

-- A request is the bytes to be put before the data, and an empty one is a read.
abbrev is_nonempty : List ℕ → Bool
is_nonempty [] = false
is_nonempty (b ∷ bs) = true

abbrev backed : World
backed = record {
  Log = Binlog directory;
  position = log_position;
  put = put directory;
  put_blank = put_blank directory;
  set_position = λ b o index. moved_to (set_producer_status directory b o.filenum o.offset index);
  Db = List ℕ;
  Request = List ℕ;
  run = λ req db. (Code.ok, req ++ db);
  is_write = is_nonempty;
  raw = λ req. req;
  generate_log = λ req. some req;
}

abbrev log_0 : Binlog directory
log_0 = record {
  dir = λ i. false;
  file_size = 100;
  version = record { pro_num = 0; pro_offset = 0; saved_num = 0; saved_offset = 0 };
  writer = record { queue = []; block_offset = 0 };
}

abbrev put_or_same : Option (Status × Binlog directory) → Binlog directory → Binlog directory
put_or_same none b = b
put_or_same (some (s, b')) b = b'

abbrev log_1 : Binlog directory
log_1 = put_or_same (put directory log_0 (1 ∷ [])) log_0

abbrev log_2 : Binlog directory
log_2 = put_or_same (put directory log_1 (2 ∷ [])) log_1

abbrev the_master : Node
the_master = record { ip = "a"; port = 1 }

abbrev nowhere : BinlogOffset
nowhere = record { filenum = 0; offset = 0 }

abbrev first_master : Partition backed
first_master = record {
  opened = true;
  master_node = the_master;
  slave_nodes = record { ip = "b"; port = 2 } ∷ [];
  pstate = active;
  role = master;
  repl_state = no_connect;
  win_boffset = nowhere;
  do_recovery_sync = false;
  recover_sync_flag = 0;
  last_sync_time = 0;
  sync_lease = 60;
  stuck_recover_sync_flag = 0;
  purged_index = 0;
  fallback = record { time = 0; before = nowhere; after = nowhere };
  log = log_0;
  db = [];
  effects = [];
}

abbrev second_master : Partition backed
second_master = record first_master { log = log_1; db = 1 ∷ [] }

abbrev third_master : Partition backed
third_master = record first_master { log = log_2; db = 2 ∷ 1 ∷ [] }

abbrev replica : Partition backed
replica = record first_master { role = slave; repl_state = connected }

-- A write, a read and a write.
abbrev asked : List (ℕ × List ℕ)
asked = (0, 1 ∷ []) ∷ (0, []) ∷ (0, 2 ∷ []) ∷ []

-- The second item comes too early and again at the end, and the first one twice.
abbrev items : List (SyncOption × List ℕ)
items =
    (record { from_node = the_master; at = log_position log_1 }, 2 ∷ [])
    ∷ (record { from_node = the_master; at = nowhere }, 1 ∷ [])
    ∷ (record { from_node = the_master; at = nowhere }, 1 ∷ [])
    ∷ (record { from_node = the_master; at = log_position log_1 }, 2 ∷ [])
    ∷ []

write_first : do_command backed 0 0 first_master (1 ∷ []) ≡ some (plain Code.ok, second_master)
unfolding do_command put advance maybe_roll produce produce_loop produce_round emit_physical_record
    header pad_block inc available left_after
write_first = refl

write_second : do_command backed 0 0 second_master (2 ∷ []) ≡ some (plain Code.ok, third_master)
unfolding do_command put advance maybe_roll produce produce_loop produce_round emit_physical_record
    header pad_block inc available left_after
write_second = refl

asked-IsSteady : IsSteady backed 0 first_master asked
unfolding IsSteady do_command put advance maybe_roll produce produce_loop produce_round
    emit_physical_record header pad_block inc available left_after
asked-IsSteady = (inr refl, (inl refl, (inr refl, tt)))

first-Sent :
    Sent backed 0 first_master asked (record { from_node = the_master; at = nowhere }) (1 ∷ [])
unfolding master_at put advance maybe_roll produce produce_loop produce_round emit_physical_record
    header pad_block inc available left_after
first-Sent =
    sent 0 0 (1 ∷ []) (plain Code.ok) first_master second_master (1 ∷ []) refl refl write_first refl
      refl refl refl refl

second-Sent :
    Sent backed 0 first_master asked
      (record { from_node = the_master; at = log_position log_1 })
      (2 ∷ [])
unfolding master_at do_command put advance maybe_roll produce produce_loop produce_round
    emit_physical_record header pad_block inc available left_after
second-Sent =
    sent 2 0 (2 ∷ []) (plain Code.ok) second_master third_master (2 ∷ []) refl refl write_second
      refl refl refl refl refl

items-AllSent : AllSent backed 0 first_master asked items
unfolding AllSent
items-AllSent = (second-Sent, (first-Sent, (first-Sent, (second-Sent, tt))))

replica-IsReplica : IsReplica backed 0 first_master asked replica 0
unfolding master_at
replica-IsReplica = (first_master, refl, refl)

deliver-IsReplica_example :
    (p : Partition backed) × (deliver backed 0 9 replica items ≡ some p)
    × (k : ℕ) × (0 ≤ k)
    × IsReplica backed 0 first_master asked p k
deliver-IsReplica_example =
    deliver-IsReplica backed 0 first_master asked 9 replica 0 items asked-IsSteady replica-IsReplica
      items-AllSent
