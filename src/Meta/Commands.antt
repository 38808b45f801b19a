-- ===== src/Meta/Commands.antt =====
-- The commands of an administrator in src/meta/zp_meta_server.cc that pend a task of the update
-- thread, the ping of a node and the nodes that have expired. A command returns its status and the
-- queue of tasks.
pub mod Pends
use Prim.Native.String.{String}
use zeppelin.Base.{
  ℕ, Bool, true, false, ◌&&◌, ◌||◌, not, Option, none, some, List, [], ◌∷◌, if◌then◌else◌,
}
use zeppelin.Base.Int.{ℤ}
use zeppelin.Base.Assoc.{lookup}
use zeppelin.Env.{Status, ok, not_found, corruption, invalid_argument, is_ok}
use zeppelin.Meta.Data.{Node, Table, NodeInfo, Formats}
use zeppelin.Meta.Store.{Store, initialed, state_equal}
use zeppelin.Meta.Store.Ping.{
  Report, update_node_info, fetch_expired_node, get_node_info, partition_exist, is_slave, is_master,
}
use zeppelin.Meta.Update.{
  Update, up, down, remove, adds_table, removes_table, adds_slave, removes_slave, Queue,
  pending_update,
}

-- PendingUpdate, for its status and the queue.
abbrev pub pend : Queue → Update → Status × Queue
pend q u = let x = pending_update q u in (x.0, x.1)

abbrev pub is_there : Option Table → Bool
is_there none = false
is_there (some t) = true

-- TableExist
unfoldable pub table_exist : Store → String → Bool
table_exist s table = initialed s && is_there (lookup table s.table_info)

-- CreateTable
unfoldable pub create_table : Store → Queue → Table → Status × Queue
create_table s q table =
    if table_exist s table.name then (invalid_argument, q) else pend q (adds_table table)

-- DropTable; `migrating` is ExistWithLock of the migrate register.
unfoldable pub drop_table : Bool → Store → Queue → String → Status × Queue
drop_table migrating s q table =
    if not (table_exist s table)
    then (invalid_argument, q)
    else if migrating
    then (corruption, q)
    else pend q (removes_table table)

module _ (fm : Formats) where
  -- AddPartitionSlave
  unfoldable pub add_partition_slave : Store → Queue → String → ℤ → Node → Status × Queue
  add_partition_slave s q table pnum target =
      if not (partition_exist s table pnum)
        || is_slave s table pnum target
        || is_master s table pnum target
      then (invalid_argument, q)
      else pend q (adds_slave table pnum (fm.ip_port target))

  -- RemovePartitionSlave
  unfoldable pub remove_partition_slave : Bool → Store → Queue → String → ℤ → Node → Status × Queue
  remove_partition_slave migrating s q table pnum target =
      if not (is_slave s table pnum target)
      then (invalid_argument, q)
      else if migrating
      then (corruption, q)
      else pend q (removes_slave table pnum (fm.ip_port target))

  abbrev pub removable : Option NodeInfo → Bool
  removable none = false
  removable (some i) = not (state_equal fm i true)

  -- The check of RemoveNodes, and RemoveNodes
  unfoldable pub all_removable : Store → List Node → Bool
  all_removable s [] = true
  all_removable s (n ∷ ns) = removable (get_node_info fm s n) && all_removable s ns

  unfoldable pub remove_nodes_command : Store → Queue → List Node → Status × Queue
  remove_nodes_command s q ns = if all_removable s ns then pend q (remove ns) else (corruption, q)

  -- UpdateNodeInfo: a node that the store does not know to be alive is to be upped.
  unfoldable pub ping_node : ℕ → Node → List Report → Store → Queue → Status × Store × Queue
  ping_node now n reports s q =
      let x = update_node_info fm now n reports s in
      elim (x.0) [
        | not_found ↦ (ok, x.1, (pend q (up (fm.ip_port n))).1)
        | status ↦ (status, x.1, q)
      ]

  -- CheckNodeAlive
  unfoldable pub pend_downs : Queue → List String → Queue
  pend_downs q [] = q
  pend_downs q (n ∷ ns) = pend_downs (pend q (down n)).1 ns

  unfoldable pub check_node_alive : ℕ → Store → Queue → Queue
  check_node_alive now s q = pend_downs q (fetch_expired_node fm now s.node_infos)
