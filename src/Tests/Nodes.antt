-- ===== src/Tests/Nodes.antt =====
-- Runs of src/node/zp_data_partition.cc on a binlog that counts bytes.
use zeppelin.Base.{
  ℕ, ◌+◌, ◌≡◌, ◌⊎◌, Option, refl, true, false, some, List, [], ◌∷◌, ◌++◌, length, arith,
}
use zeppelin.Env.{Status}
use zeppelin.Node.World.{Node, BinlogOffset, World}
use zeppelin.Node.Partition.{
  master, no_connect, Partition, slave, should_connect, connected, active, leave,
}
use zeppelin.Node.Sync.{try_sync_done}
use zeppelin.Node.Roles.{IsSound}
use zeppelin.Node.Steps.{connects, leaves, Reach, here, next, Reach-IsSound}
use zeppelin.Node.Purge.{PurgeOptions, purge_files, check_binlog_files, no_hole}
use zeppelin.Node.Purge.Safe.{Ascending, has, Gone, purge_files-Gone}
use zeppelin.Node.Purge.Contiguous.{purge_files-check}
use zeppelin.Node.Serve.{slave_ask_sync}
use zeppelin.Node.Serve.Purged.{IsUnsent, slave_ask_sync-purge_files}

-- Items follow each other in one file; the engine keeps what was written.
abbrev counting_in : ℕ → World
counting_in num = record {
  Log = ℕ;
  position = λ l. record { filenum = num; offset = l };
  put = λ l bytes. some (Status.ok, l + 4 + length bytes);
  put_blank = λ l gap. some (Status.ok, l + gap);
  set_position = λ l o index. some (o.offset, record { filenum = num; offset = l }, index);
  Db = List ℕ;
  Request = List ℕ;
  run = λ req db. (zeppelin.Node.World.Code.ok, req ++ db);
  is_write = λ req. true;
  raw = λ req. req;
  generate_log = λ req. some req;
}

abbrev counting : World
counting = counting_in 0

abbrev sender : Node
sender = record { ip = "a"; port = 1 }

abbrev nowhere : BinlogOffset
nowhere = record { filenum = 0; offset = 0 }

abbrev connected_in : (num : ℕ) → Partition (counting_in num)
connected_in num = record {
  opened = true;
  master_node = sender;
  slave_nodes = record { ip = "b"; port = 2 } ∷ [];
  pstate = active;
  role = slave;
  repl_state = connected;
  win_boffset = nowhere;
  do_recovery_sync = false;
  recover_sync_flag = 0;
  last_sync_time = 0;
  sync_lease = 60;
  stuck_recover_sync_flag = 0;
  purged_index = 0;
  fallback = record { time = 0; before = nowhere; after = nowhere };
  log = 0;
  db = [];
  effects = [];
}

abbrev connected_slave : Partition counting
connected_slave = connected_in 0

-- A master that writes file 3.
abbrev asked_master : Partition (counting_in 3)
asked_master = record (connected_in 3) {
  role = master;
  repl_state = no_connect;
  slave_nodes = sender ∷ [];
}

-- A slave that asks for its connection, gets it, and leaves the table.
abbrev asking_slave : Partition counting
asking_slave = record connected_slave { repl_state = should_connect }

there_and_back : Reach counting asking_slave (leave counting true sender connected_slave)
unfolding try_sync_done
there_and_back = next (next here (connects refl)) (leaves true sender refl)

Reach-IsSound_example : IsSound counting (leave counting true sender connected_slave)
Reach-IsSound_example =
    Reach-IsSound counting asking_slave (leave counting true sender connected_slave) refl
      there_and_back

-- Three files, of which the first may go: the slave is sent file 2.
abbrev purge_options : PurgeOptions
purge_options = record {
  remain_min_count = 1;
  remain_max_count = 60;
  to = 1;
  manual = true;
  expired = λ f. false;
}

abbrev filenum_2 : Node → Option ℕ
filenum_2 n = some 2

abbrev three_files : List ℕ
three_files = 1 ∷ 2 ∷ 3 ∷ []

three_files-Ascending : Ascending 0 three_files
three_files-Ascending = (omega arith, (omega arith, (omega arith, tt)))

purge_files-Gone_example :
    (left : List ℕ) × ((purge_files
        (counting_in 3)
        filenum_2
        (λ f. true)
        purge_options
        asked_master
        (some three_files)).2
      ≡ some left)
    × ((has 1 left ≡ true)
        ⊎ Gone
            (counting_in 3)
            filenum_2
            (λ f. true)
            asked_master
            (purge_files
              (counting_in 3)
              filenum_2
              (λ f. true)
              purge_options
              asked_master
              (some three_files)).1
            1)
purge_files-Gone_example =
    purge_files-Gone (counting_in 3) filenum_2 (λ f. true) purge_options asked_master three_files 1
      three_files-Ascending refl

purge_files-check_example :
    (check_binlog_files
      (purge_files
        (counting_in 3)
        filenum_2
        (λ f. true)
        purge_options
        asked_master
        (some three_files)).2).0
    ≡ true
unfolding check_binlog_files no_hole
purge_files-check_example =
    purge_files-check (counting_in 3) filenum_2 (λ f. true) (λ f. refl) purge_options asked_master
      three_files refl

abbrev asks_for_1 : BinlogOffset
asks_for_1 = record { filenum = 1; offset = 0 }

slave_ask_sync-purge_files_example :
    (left : List ℕ) × ((purge_files
        (counting_in 3)
        filenum_2
        (λ f. true)
        purge_options
        asked_master
        (some three_files)).2
      ≡ some left)
    × ((has 1 left ≡ true)
        ⊎ IsUnsent
            (counting_in 3)
            (purge_files
              (counting_in 3)
              filenum_2
              (λ f. true)
              purge_options
              asked_master
              (some three_files)).1
            sender
            (slave_ask_sync
              (counting_in 3)
              (λ n o. Status.ok)
              (purge_files
                (counting_in 3)
                filenum_2
                (λ f. true)
                purge_options
                asked_master
                (some three_files)).1
              sender
              asks_for_1))
slave_ask_sync-purge_files_example =
    slave_ask_sync-purge_files (counting_in 3) filenum_2 (λ f. true) purge_options asked_master
      three_files (λ n o. Status.ok) sender asks_for_1 three_files-Ascending refl
