-- ===== src/Lib.antt =====
-- Verification library of Zeppelin, a distributed key-value platform.
--
-- The program. A data server (src/node) keeps partitions of tables. Each has one master and some
-- slaves; the master writes every change to its binlog (src/common/zp_binlog.cc), the binlog sender
-- reads it and sends the items, and a slave that is connected applies them and writes them to its own
-- binlog. The meta server (src/meta) keeps the tables, the nodes that are up and the roles; an update
-- thread changes a snapshot of them, and the data servers follow.
--
-- The files and what they model:
--   Base             lists, tests and maps that the components share
--   Env              statuses and files of slash, as interfaces with the laws that the code relies on
--   Binlog/Format    the block and the header of include/zp_const.h and of src/common/zp_binlog.cc
--   Binlog/Writer    class BinlogWriter: Load, Fallback, Produce, EmitPhysicalRecord, AppendBlank
--   Binlog/Reader    class BinlogReader: Consume, Seek, ReadPhysicalRecord, SkipNextBlock
--   Binlog/Encoding  the bytes of an item, by recursion on the item, to which both are compared
--   Binlog/RoundTrip what is written, read back
--   Binlog/Version   class Version: the producer's position and its manifest
--   Binlog/Log       class Binlog: Init, Put, PutBlank, MaybeRoll, RemoveBetween, SetProducerStatus
--   Meta/Data        messages of src/meta/zp_meta.proto, NodeOffset and NodeInfo
--   Meta/Snapshot    class ZPMetaInfoStoreSnap of src/meta/zp_meta_info_store.cc
--   Meta/Refresh     its RefreshTableWithNodeAlive, which chooses new masters
--   Meta/Store       class ZPMetaInfoStore of src/meta/zp_meta_info_store.cc: Refresh and what it loads
--   Meta/Store/Apply its GetSnapshot and Apply
--   Meta/Store/Ping  its UpdateNodeInfo, FetchExpiredNode and queries
--   Meta/Update      class ZPMetaUpdateThread of src/meta/zp_meta_update_thread.cc
--   Meta/Election    class ZPMetaElection of src/meta/zp_meta_election.cc
--   Meta/Commands    commands of src/meta/zp_meta_server.cc that pend a task of the update thread
--   Meta/Migrate     class ZPMetaMigrateRegister of src/meta/zp_meta_migrate_register.cc
--   Node/World       the binlog, the engine and the requests as the data partition uses them
--   Node/Partition   class Partition of src/node/zp_data_partition.cc: files, roles, Update, Leave
--   Node/Sync        its connection state, the items from the master and the recovery
--   Node/Serve       its DoCommand, SlaveAskSync and GetWinBinlogOffset
--   Node/Purge       its CheckBinlogFiles, CouldPurge and PurgeFiles
--   Node/Sender      class ZPBinlogSendTask of src/node/zp_binlog_sender.cc, and a pass of the thread
--   Node/Sender/Pool class ZPBinlogSendTaskPool
--   Tests            concrete instances, and the theorems at concrete inputs
-- Other files below these hold proofs about the file whose name they start with.
--
-- State and operations. A method is a function from the object's record to the results and the new
-- record. `none` stands for a failed assert, for LOG(FATAL), and for an access outside a repeated
-- field. A status is returned as the source returns it, without its message. Calls of other parts of
-- the program (the data server, files of slash, rocksdb, protobuf) are parameters, or are recorded in
-- the field `effects`. The locks are left out: each operation is one step, but for AddNewTask of
-- the sender, where the other threads come between its lock sections.
--
-- Bounds and fuel. Numbers are natural numbers, with `% 2 ^ w` where the source's type can wrap in the
-- operation. The loop of Produce has the length of the item plus one as fuel, and each round writes
-- at least one byte. The loops of Consume and of Seek have their fuel as an argument: Consume needs
-- more than the item has bytes, since every fragment but the last one holds at least one. ProcessTask
-- takes one more than the number of files that it rolls over. ApplyUpdates takes the number of calls
-- of Apply, and one more than the reading at which the thread is told to stop is enough.
--
-- Not modelled: the threads and connections of src/node and src/meta, the condition cron and the loop
-- of the migration in src/meta/zp_meta_server.cc, floyd (consensus), rocksdb, the
-- commands on the engine, snapshots by rsync, the configuration and the tools.
mod Base
pub mod Env
pub mod Binlog
pub mod Meta
pub mod Node
mod Tests
