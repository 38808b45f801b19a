-- ===== src/Meta/Store/Ping.antt =====
-- What a ping changes in ZPMetaInfoStore of src/meta/zp_meta_info_store.cc, the nodes that have
-- expired, and what the meta server asks the store.
pub mod Reports
use Prim.Native.String.{String}
use text.Mathlib.Text.{◌==◌ as str_eq}
use zeppelin.Base.{
  ℕ, ◌-◌, ◌*◌, ◌+◌, ◌^◌, ◌%◌, Bool, true, false, ◌&&◌, ◌||◌, not, Option, none, some, List, [], ◌∷◌,
  length, get_elem?, ltb, ◌==◌, if◌then◌else◌,
}
use zeppelin.Base.Int.{ℤ, pos, negsuc, to_ℕ?, int_eq, int_ge, int_lt}
use zeppelin.Base.Assoc.{lookup, insert, erase}
use zeppelin.Base.Sets.{is_some, keys}
use zeppelin.Env.{Status, ok, not_found, incomplete}
use zeppelin.Meta.Data.{Node, Partition, Table, NodeInfo, NodeOffset, Formats, get_offset}
use zeppelin.Meta.Snapshot.{info_or_new, alive}
use zeppelin.Meta.Store.{Store, initialed}

-- An offset of MetaCmd_Ping. A partition that is `none` stands for -1, the only negative one that is
-- sent.
pub record Report : Type 0 where
  pub table_name : String
  pub partition : Option ℕ
  pub filenum : ℤ
  pub offset : ℤ

-- What a report asks for: to clear all offsets, to drop one, or to set it.
pub data Asks : Type 0 where
  clears : Asks
  drops : String → Asks
  sets : String → NodeOffset → Asks

-- kNodeMetaTimeoutM, in seconds
abbrev pub node_meta_timeout : ℕ
node_meta_timeout = 30

module _ (fm : Formats) where
  unfoldable pub asks : Report → Asks
  asks r = elim r.partition [
    | none ↦ clears
    | some p ↦
        if str_eq r.table_name ""
        then clears
        else if int_eq r.filenum (negsuc 0) || int_eq r.offset (negsuc 0)
        then drops (fm.offset_key r.table_name p)
        else sets (fm.offset_key r.table_name p) (record { filenum = r.filenum; offset = r.offset })
  ]

  abbrev pub drop_offset :
      String → String → Option NodeInfo → List (String × NodeInfo) → List (String × NodeInfo)
  drop_offset node key none infos = infos
  drop_offset node key (some i) infos =
      insert node (record i { offsets = erase key i.offsets }) infos

  abbrev pub set_offset :
      String → String → NodeOffset → List (String × NodeInfo) → List (String × NodeInfo)
  set_offset node key o infos =
      let i = info_or_new (lookup node infos) in
      insert node (record i { offsets = insert key o i.offsets }) infos

  -- The loop over the reports once has_clear is set: one that asks to clear is passed over.
  unfoldable pub update_cleared :
      String → List Report → List (String × NodeInfo) → List (String × NodeInfo)
  update_cleared node [] infos = infos
  update_cleared node (r ∷ rs) infos = elim (asks r) [
    | clears ↦ update_cleared node rs infos
    | drops key ↦ update_cleared node rs (drop_offset node key (lookup node infos) infos)
    | sets key o ↦ update_cleared node rs (set_offset node key o infos)
  ]

  -- The loop until the first that asks to clear, where it starts again from all of the reports.
  unfoldable pub update_offsets :
      String → List Report → List Report → List (String × NodeInfo) → List (String × NodeInfo)
  update_offsets node all [] infos = infos
  update_offsets node all (r ∷ rs) infos = elim (asks r) [
    | clears ↦ elim (lookup node infos) [
      | none ↦ update_offsets node all rs infos
      | some i ↦ update_cleared node all (insert node (record i { offsets = [] }) infos)
    ]
    | drops key ↦ update_offsets node all rs (drop_offset node key (lookup node infos) infos)
    | sets key o ↦ update_offsets node all rs (set_offset node key o infos)
  ]

  abbrev pub touched : ℕ → String → Option NodeInfo → Store → Store
  touched now node none s = s
  touched now node (some i) s = record s {
    node_infos = insert node (record i { last_alive_time = now }) s.node_infos;
  }

  -- UpdateNodeInfo at the time `now`. at(node) does not throw: the node was found.
  unfoldable pub update_node_info : ℕ → Node → List Report → Store → Status × Store
  update_node_info now n reports s =
      let node = fm.ip_port n in
      let s' = record s { node_infos = update_offsets node reports reports s.node_infos } in
      if not (initialed s)
      then (incomplete, s)
      else if not (alive (lookup node s.node_infos))
      then (not_found, s')
      else (ok, touched now node (lookup node s'.node_infos) s')

  -- FetchExpiredNode at the time `now`
  unfoldable pub fetch_expired_node : ℕ → List (String × NodeInfo) → List String
  fetch_expired_node now [] = []
  fetch_expired_node now ((ip_port, i) ∷ is) =
      let rest = fetch_expired_node now is in
      let age = (now + 2 ^ 64 - i.last_alive_time) % 2 ^ 64 in
      if ltb 0 i.last_alive_time && ltb (node_meta_timeout * 1000 * 1000) age
      then ip_port ∷ rest
      else rest

  -- GetNodeOffset; *noffset is left alone where it fails.
  unfoldable pub node_offset : Store → Node → String → ℕ → NodeOffset → Status × NodeOffset
  node_offset s n table partition_id noffset =
      if not (initialed s)
      then (incomplete, noffset)
      else elim (lookup (fm.ip_port n) s.node_infos) [
        | none ↦ (not_found, noffset)
        | some i ↦ get_offset fm i table partition_id noffset
      ]

-- GetNodeInfo: false is `none`.
unfoldable pub get_node_info : Formats → Store → Node → Option NodeInfo
get_node_info fm s n = if initialed s then lookup (fm.ip_port n) s.node_infos else none

-- Whether a number is that of one of `size` partitions, as PartitionExistNoLock tests it.
abbrev pub in_size : ℕ → ℤ → Bool
in_size size partition = not (int_ge partition (pos size) || int_lt partition (pos 0))

abbrev pub exists_in : Option Table → ℤ → Bool
exists_in none partition = false
exists_in (some t) partition = in_size (length t.partitions) partition

-- PartitionExistNoLock
unfoldable pub partition_exist_no_lock : Store → String → ℤ → Bool
partition_exist_no_lock s table partition = exists_in (lookup table s.table_info) partition

-- PartitionExist
unfoldable pub partition_exist : Store → String → ℤ → Bool
partition_exist s table partition = initialed s && partition_exist_no_lock s table partition

-- table_info_[table].partitions(partition), where they exist
abbrev pub partition_in : Option Table → Option ℕ → Option Partition
partition_in none i = none
partition_in (some t) none = none
partition_in (some t) (some i) = get_elem? t.partitions i

unfoldable pub partition_of : Store → String → ℤ → Option Partition
partition_of s table partition = partition_in (lookup table s.table_info) (to_ℕ? partition)

abbrev pub has_address : Node → Node → Bool
has_address a b = str_eq a.ip b.ip && a.port == b.port

abbrev pub has_node : Node → List Node → Bool
has_node target [] = false
has_node target (n ∷ ns) = has_address n target || has_node target ns

abbrev pub slave_in : Node → Option Partition → Bool
slave_in target none = false
slave_in target (some p) = has_node target p.slaves

abbrev pub master_in : Node → Option Partition → Bool
master_in target none = false
master_in target (some p) = has_address p.master target

-- IsSlave and IsMaster
unfoldable pub is_slave : Store → String → ℤ → Node → Bool
is_slave s table partition target =
    initialed s
    && partition_exist_no_lock s table partition
    && slave_in target (partition_of s table partition)

unfoldable pub is_master : Store → String → ℤ → Node → Bool
is_master s table partition target =
    initialed s
    && partition_exist_no_lock s table partition
    && master_in target (partition_of s table partition)

-- GetTableList, GetTablesForNode, GetTableMeta and GetMembers
unfoldable pub get_table_list : Store → Status × List String
get_table_list s = if initialed s then (ok, keys s.table_info) else (incomplete, [])

abbrev pub or_not_found {ℓ} : {A : Type ℓ} → Option A → Status × Option A
or_not_found none = (not_found, none)
or_not_found (some a) = (ok, some a)

unfoldable pub get_tables_for_node : Store → String → Status × Option (List String)
get_tables_for_node s ip_port =
    if initialed s then or_not_found (lookup ip_port s.node_table) else (incomplete, none)

unfoldable pub get_table_meta : Store → String → Status × Option Table
get_table_meta s table =
    if initialed s then or_not_found (lookup table s.table_info) else (incomplete, none)

unfoldable pub get_members : Store → Status × Option (List String)
get_members s = if initialed s then (ok, some s.members) else (incomplete, none)
