-- ===== src/Meta/Snapshot.antt =====
-- ZPMetaInfoStoreSnap of src/meta/zp_meta_info_store.cc: the copy of the cluster's meta data that the
-- update thread changes and then applies. A method returns its status and the snapshot.
pub mod Members
pub mod Changes
use Prim.Native.String.{String}
use text.Mathlib.Text.{◌==◌ as str_eq}
use zeppelin.Base.{
  ℕ, zero, suc, ◌+◌, ◌-◌, Bool, true, false, ◌&&◌, ◌||◌, not, Option, none, some, List, [], ◌∷◌,
  ◌++◌, length, get_elem?, set, ltb, ◌==◌, if◌then◌else◌,
}
use zeppelin.Base.Int.{ℤ, to_ℕ?}
use zeppelin.Base.Assoc.{lookup, insert, erase}
use zeppelin.Env.{Status, ok, not_found, corruption, invalid_argument, complete, incomplete}
use zeppelin.Meta.Data.{
  Node, PState, Partition, Table, NodeInfo, NodeOffset, Formats, is_node_empty, is_same_node,
  assign_pb_node,
}

-- A value of `tables_changed` and of `members_change_` is never false but as the source writes it.
pub record Snapshot : Type 0 where
  pub members_change : List (String × Bool)
  pub tables : List (String × Table)
  pub nodes : List (String × NodeInfo)
  pub node_table : List (String × List String)
  pub node_changed : Bool
  pub table_changed : List (String × Bool)

abbrev pub no_info : NodeInfo
no_info = record { last_alive_time = 0; offsets = [] }

-- nodes_[ip_port]
abbrev pub info_or_new : Option NodeInfo → NodeInfo
info_or_new none = no_info
info_or_new (some i) = i

abbrev pub alive : Option NodeInfo → Bool
alive none = false
alive (some i) = not (i.last_alive_time == 0)

-- UpNode at the time `now` (slash::NowMicros).
unfoldable pub up_node : Snapshot → ℕ → String → Status × Snapshot
up_node s now ip_port = (
  ok,
  record s {
    node_changed = s.node_changed || not (alive (lookup ip_port s.nodes));
    nodes =
        insert ip_port (record (info_or_new (lookup ip_port s.nodes)) { last_alive_time = now })
          s.nodes;
  },
)

-- DownNode
unfoldable pub down_node : Snapshot → String → Status × Snapshot
down_node s ip_port = elim (lookup ip_port s.nodes) [
  | none ↦ (ok, s)
  | some i ↦ (
    ok,
    record s {
      node_changed = s.node_changed || not (i.last_alive_time == 0);
      nodes = insert ip_port (record i { last_alive_time = 0 }) s.nodes;
    },
  )
]

abbrev pub has_tables : Option (List String) → Bool
has_tables none = false
has_tables (some []) = false
has_tables (some (t ∷ ts)) = true

-- What a look at a partition by table and index finds: its table, its place and itself.
pub data Found : Type 0 where
  missing : Found
  found : Table → ℕ → Partition → Found

unfoldable pub find_in : Option Table → Option ℕ → Found
find_in none i = missing
find_in (some t) none = missing
find_in (some t) (some i) = elim (get_elem? t.partitions i) [
  | none ↦ missing
  | some p ↦ found t i p
]

-- The checks that each method of a partition begins with.
unfoldable pub find_partition : Snapshot → String → ℤ → Found
find_partition s table partition = find_in (lookup table s.tables) (to_ℕ? partition)

-- The partition changed in place, and table_changed_[table] = true.
unfoldable pub put_partition : Snapshot → String → Table → ℕ → Partition → Snapshot
put_partition s name t i p = record s {
  tables = insert name (record t { partitions = set t.partitions i p }) s.tables;
  table_changed = insert name true s.table_changed;
}

-- What a method does to the partition that it found: a status, and the new partition if it changes.
abbrev pub Change : Type 0
Change = Status × Option Partition

unfoldable pub change_partition : Snapshot → String → ℤ → (Partition → Change) → Status × Snapshot
change_partition s table partition f = elim (find_partition s table partition) [
  | missing ↦ (not_found, s)
  | found t i p ↦ elim (f p).1 [
    | none ↦ ((f p).0, s)
    | some p' ↦ ((f p).0, put_partition s table t i p')
  ]
]

abbrev pub remove_last : List Node → List Node
remove_last [] = []
remove_last (x ∷ []) = []
remove_last (x ∷ y ∷ ys) = x ∷ remove_last (y ∷ ys)

abbrev pub last_or : Node → List Node → Node
last_or d [] = d
last_or d (x ∷ xs) = last_or x xs

-- The swap of SetMaster with the slave `n` at place i. An old master that is empty is discarded:
-- the last slave takes the place.
unfoldable pub swap_master : Partition → ℕ → Node → Partition
swap_master p i n =
    if is_node_empty p.master
    then record p { master = n; slaves = remove_last (set p.slaves i (last_or n p.slaves)) }
    else record p { master = n; slaves = set p.slaves i p.master }

abbrev pub next_place : Option ℕ → Option ℕ
next_place none = none
next_place (some i) = some (suc i)

module _ (fm : Formats) where
  -- IsNodeUp
  unfoldable pub is_node_up : Snapshot → Node → Bool
  is_node_up s n = alive (lookup (fm.ip_port n) s.nodes)

  -- RemoveNodes: the first node that is up, or holds a table, ends it.
  unfoldable pub remove_nodes : Snapshot → List Node → Status × Snapshot
  remove_nodes s [] = (ok, s)
  remove_nodes s (n ∷ ns) =
      let rest =
        remove_nodes (record s { node_changed = true; nodes = erase (fm.ip_port n) s.nodes }) ns in
      if is_node_up s n
      then (corruption, s)
      else if has_tables (lookup (fm.ip_port n) s.node_table)
      then (corruption, s)
      else rest

  -- The search through the slaves for an address: the place of the first.
  unfoldable pub find_slave : List Node → String → Option ℕ
  find_slave [] ip_port = none
  find_slave (n ∷ ns) ip_port =
      if is_same_node fm n ip_port then some 0 else next_place (find_slave ns ip_port)

  -- AddSlave on the partition.
  unfoldable pub add_slave_to : String → Partition → Change
  add_slave_to ip_port p =
      if is_same_node fm p.master ip_port then (ok, none) else elim (find_slave p.slaves ip_port) [
        | some i ↦ (ok, none)
        | none ↦ (ok, some (record p { slaves = p.slaves ++ assign_pb_node fm ip_port ∷ [] }))
      ]

  unfoldable pub add_slave : Snapshot → String → ℤ → String → Status × Snapshot
  add_slave s table partition ip_port = change_partition s table partition (add_slave_to ip_port)

  -- The slaves that DeleteSlave copies.
  unfoldable pub other_slaves : String → List Node → List Node
  other_slaves ip_port [] = []
  other_slaves ip_port (n ∷ ns) =
      if is_same_node fm n ip_port then other_slaves ip_port ns else n ∷ other_slaves ip_port ns

  unfoldable pub delete_slave_from : String → Partition → Change
  delete_slave_from ip_port p =
      if is_same_node fm p.master ip_port
      then (invalid_argument, none)
      else if length p.slaves == length (other_slaves ip_port p.slaves)
      then (ok, none)
      else (ok, some (record p { slaves = other_slaves ip_port p.slaves }))

  unfoldable pub delete_slave : Snapshot → String → ℤ → String → Status × Snapshot
  delete_slave s table partition ip_port =
      change_partition s table partition (delete_slave_from ip_port)

  unfoldable pub set_master_of : String → Partition → Change
  set_master_of ip_port p =
      if is_same_node fm p.master ip_port then (ok, none) else elim (find_slave p.slaves ip_port) [
        | none ↦ (not_found, none)
        | some i ↦ elim (get_elem? p.slaves i) [
          | none ↦ (not_found, none)
          | some n ↦ (ok, some (swap_master p i n))
        ]
      ]

  unfoldable pub set_master : Snapshot → String → ℤ → String → Status × Snapshot
  set_master s table partition ip_port = change_partition s table partition (set_master_of ip_port)

  -- Handover; a status of the first DeleteSlave other than InvalidArgument is not passed on.
  unfoldable pub handover : Snapshot → String → ℤ → String → String → Status × Snapshot
  handover s table partition left_node right_node =
      let (s0, snap) = delete_slave s table partition left_node in
      elim s0 [
        | invalid_argument ↦
            let (s1, snap') = set_master snap table partition right_node in
            elim s1 [
              | Status.ok ↦ delete_slave snap' table partition left_node
              | failure ↦ (failure, snap')
            ]
        | _ ↦ (ok, snap)
      ]

-- AddTable: `insert` keeps an entry of table_changed_ that is there.
unfoldable pub add_table : Snapshot → Table → Status × Snapshot
add_table s t = elim (lookup t.name s.tables) [
  | some u ↦ (complete, s)
  | none ↦ (
    ok,
    record s {
      tables = insert t.name t s.tables;
      table_changed = elim (lookup t.name s.table_changed) [
        | some c ↦ s.table_changed
        | none ↦ insert t.name true s.table_changed
      ];
    },
  )
]

abbrev pub pstate_eq : PState → PState → Bool
pstate_eq PState.active PState.active = true
pstate_eq PState.stuck PState.stuck = true
pstate_eq PState.slowdown PState.slowdown = true
pstate_eq _ _ = false

-- ChangePState
unfoldable pub change_pstate_of : PState → Partition → Change
change_pstate_of target p =
    if pstate_eq p.state target then (ok, none) else (ok, some (record p { state = target }))

unfoldable pub change_pstate : Snapshot → String → ℤ → PState → Status × Snapshot
change_pstate s table partition target =
    change_partition s table partition (change_pstate_of target)

-- RemoveTable
unfoldable pub remove_table : Snapshot → String → Status × Snapshot
remove_table s table = elim (lookup table s.tables) [
  | none ↦ (ok, s)
  | some t ↦ (
    ok,
    record s { tables = erase table s.tables; table_changed = insert table true s.table_changed },
  )
]

-- MembersChange
unfoldable pub members_change : Snapshot → String → Bool → Status × Snapshot
members_change s node is_add = elim s.members_change [
  | [] ↦ (ok, record s { members_change = (node, is_add) ∷ [] })
  | m ∷ ms ↦ (incomplete, s)
]
