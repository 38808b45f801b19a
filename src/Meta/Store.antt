-- ===== src/Meta/Store.antt =====
-- class ZPMetaInfoStore of src/meta/zp_meta_info_store.cc: a meta server's copy of what the servers
-- share in floyd. Floyd and the serialization of protobuf messages are parameters. `none` stands for
-- the end of the process: LOG(FATAL), or the exception of std::stoi. A std::set is a list without
-- repetition. The rewriting of the configuration file is left out.
pub mod Loads
pub mod Apply
pub mod Ping
use Prim.Native.String.{String}
use text.Mathlib.Text.{◌==◌ as str_eq}
use mathlib.Core.List.{map}
use zeppelin.Base.{
  ℕ, ◌+◌, ◌-◌, Bool, true, false, ◌&&◌, ◌||◌, not, Option, none, some, List, [], ◌∷◌, ◌++◌, ltb,
  ◌==◌, if◌then◌else◌,
}
use zeppelin.Base.Int.{ℤ, negsuc, to_ℕ?, int_eq, int_lt}
use zeppelin.Base.Assoc.{lookup, insert, erase}
use zeppelin.Base.Sets.{has_elem, set_insert, set_erase, same_set, erase_all, keys}
use zeppelin.Env.{Status, ok, not_found, corruption, io_error, incomplete, is_ok}
use zeppelin.Meta.Data.{
  Node, Partition, Table, NodeInfo, NodeOffset, Formats, is_node_empty, get_offset,
}
use zeppelin.Meta.Snapshot.{Found, missing, found, find_in}

-- floyd::Floyd: Read, Write, AddServer (true) or RemoveServer, and GetAllServers.
pub record Floyds : Type 1 where
  pub State : Type 0
  pub read : State → String → Status × String
  pub write : State → String → String → Status × State
  pub change_server : State → String → Bool → Status × State
  pub all_servers : State → Status × List String

-- SerializeToString and ParseFromString of the messages TableName, Table and Nodes, each node with
-- whether it is up; std::to_string and std::stoi.
pub record Protos : Type 0 where
  pub serialize_names : List String → Option String
  pub parse_names : String → Option (List String)
  pub serialize_table : Table → Option String
  pub parse_table : String → Option Table
  pub serialize_nodes : List (Node × Bool) → Option String
  pub parse_nodes : String → Option (List (Node × Bool))
  pub unset_port : ℕ
  pub to_string : ℤ → String
  pub stoi : String → Option ℤ

-- kMetaTables, kMetaNodes, kMetaVersion and kMetaPortShiftFY
abbrev pub meta_tables : String
meta_tables = "##tables"

abbrev pub meta_nodes : String
meta_nodes = "##nodes"

abbrev pub meta_version : String
meta_version = "##version"

abbrev pub meta_port_shift_fy : ℕ
meta_port_shift_fy = 100

pub record Store : Type 0 where
  pub epoch : ℤ
  pub members : List String
  pub table_info : List (String × Table)
  pub node_table : List (String × List String)
  pub node_infos : List (String × NodeInfo)

-- The constructor
abbrev pub new_store : Store
new_store = record {
  epoch = negsuc 1;
  members = [];
  table_info = [];
  node_table = [];
  node_infos = [];
}

-- initialed
abbrev pub initialed : Store → Bool
initialed s = int_lt (negsuc 1) s.epoch

abbrev pub tables_or_new : Option (List String) → List String
tables_or_new none = []
tables_or_new (some ts) = ts

-- AddNodeTable
unfoldable pub add_node_table :
    String → String → List (String × List String) → List (String × List String)
add_node_table ip_port table m =
    insert ip_port (set_insert table (tables_or_new (lookup ip_port m))) m

-- What LoadMetaInfo changes as it reads the tables: table_info_, miss_tables and tmp_node_table.
pub record Loading : Type 0 where
  pub info : List (String × Table)
  pub miss : List String
  pub nodes : List (String × List String)

module _ (fm : Formats) where
  unfoldable pub add_slaves :
      String → List Node → List (String × List String) → List (String × List String)
  add_slaves table [] m = m
  add_slaves table (n ∷ ns) m = add_slaves table ns (add_node_table (fm.ip_port n) table m)

  unfoldable pub add_partitions :
      String → List Partition → List (String × List String) → List (String × List String)
  add_partitions table [] m = m
  add_partitions table (p ∷ ps) m = add_partitions table ps (
      add_slaves table p.slaves
        (if is_node_empty p.master then m else add_node_table (fm.ip_port p.master) table m))

  abbrev pub loaded : String → Table → Loading → Loading
  loaded name t l = record {
    info = insert name t l.info;
    miss = set_erase name l.miss;
    nodes = add_partitions name t.partitions l.nodes;
  }

  -- The members that floyd has, with the port that a meta server listens on. Its floyd port is
  -- greater than the shift.
  unfoldable pub shifted_members : List String → Option (List String)
  shifted_members [] = some []
  shifted_members (a ∷ rest) = elim (fm.parse a) [
    | none ↦ none
    | some n ↦ elim (shifted_members rest) [
      | none ↦ none
      | some ms ↦
          some (set_insert (fm.ip_port (record n { port = n.port - meta_port_shift_fy })) ms)
    ]
  ]

  module _ (pb : Protos) (fl : Floyds) where
    -- LoadMembers of the server at the address `mine`
    unfoldable pub load_members : Node → fl.State → Store → Option (Status × Store)
    load_members mine st s = elim (is_ok (fl.all_servers st).0) [
      | false ↦ some (io_error, s)
      | true ↦ elim (shifted_members (fl.all_servers st).1) [
        | none ↦ some (corruption, s)
        | some ms ↦
            if same_set ms s.members
            then some (ok, s)
            else if has_elem (fm.ip_port mine) ms
            then some (ok, record s { members = ms })
            else none
      ]
    ]

    -- The loop of LoadMetaInfo over the names of the tables
    unfoldable pub load_tables : fl.State → List String → Loading → Status × Loading
    load_tables st [] l = (ok, l)
    load_tables st (name ∷ names) l = elim (is_ok (fl.read st name).0) [
      | false ↦ (io_error, l)
      | true ↦ elim (pb.parse_table (fl.read st name).1) [
        | none ↦ (corruption, l)
        | some t ↦ load_tables st names (loaded name t l)
      ]
    ]

    -- The end of LoadMetaInfo
    abbrev pub finished : Store → Status × Loading → Status × Store
    finished s (Status.ok, l) =
        (ok, record s { table_info = erase_all l.miss l.info; node_table = l.nodes })
    finished s (failure, l) = (failure, record s { table_info = l.info })

    -- LoadMetaInfo
    unfoldable pub load_meta_info : fl.State → Store → Status × Store
    load_meta_info st s = elim (fl.read st meta_tables).0 [
      | not_found ↦ (ok, s)
      | Status.ok ↦ elim (pb.parse_names (fl.read st meta_tables).1) [
        | none ↦ (corruption, s)
        | some names ↦ finished s (
            load_tables st names
              (record { info = s.table_info; miss = keys s.table_info; nodes = [] }))
      ]
      | _ ↦ (io_error, s)
    ]

    -- The epoch that Refresh reads, with the status; `none` where std::stoi throws.
    unfoldable pub read_epoch : fl.State → Option (Status × ℤ)
    read_epoch st = elim (fl.read st meta_version).0 [
      | Status.ok ↦ elim (pb.stoi (fl.read st meta_version).1) [
        | none ↦ none
        | some e ↦ some (ok, e)
      ]
      | not_found ↦ some (ok, negsuc 0)
      | _ ↦ some (io_error, negsuc 0)
    ]

    abbrev pub with_epoch : ℤ → Status × Store → Status × Store
    with_epoch e (Status.ok, s) = (ok, record s { epoch = e })
    with_epoch e (failure, s) = (failure, s)

    abbrev pub then_load : fl.State → ℤ → Option (Status × Store) → Option (Status × Store)
    then_load st e none = none
    then_load st e (some (Status.ok, s)) = some (with_epoch e (load_meta_info st s))
    then_load st e (some (failure, s)) = some (failure, s)

    -- Refresh
    unfoldable pub refresh : Node → fl.State → Store → Option (Status × Store)
    refresh mine st s = elim (read_epoch st) [
      | none ↦ none
      | some (Status.ok, e) ↦
          if int_eq e s.epoch
          then some (ok, s)
          else if int_lt e s.epoch
          then none
          else then_load st e (load_members mine st s)
      | some (failure, e) ↦ some (failure, s)
    ]

  -- NodeInfo::StateEqual, and the constructor from a state, at the time `now`
  unfoldable pub state_equal : NodeInfo → Bool → Bool
  state_equal i up = if up then ltb 0 i.last_alive_time else not (ltb 0 i.last_alive_time)

  abbrev pub node_info : ℕ → Bool → NodeInfo
  node_info now up = record { last_alive_time = if up then now else 0; offsets = [] }

  abbrev pub kept : ℕ → Bool → Option NodeInfo → NodeInfo
  kept now up none = node_info now up
  kept now up (some i) = if state_equal i up then i else node_info now up

  -- The loop of RefreshNodeInfos over the nodes in floyd, with those it misses
  unfoldable pub refresh_nodes :
      ℕ → List (Node × Bool) → List (String × NodeInfo) → List String → List (String × NodeInfo)
  refresh_nodes now [] infos miss = erase_all miss infos
  refresh_nodes now ((n, up) ∷ ns) infos miss =
      refresh_nodes now ns (insert (fm.ip_port n) (kept now up (lookup (fm.ip_port n) infos)) infos)
        (set_erase (fm.ip_port n) miss)

  module _ (pb : Protos) (fl : Floyds) where
    -- RefreshNodeInfos
    unfoldable pub refresh_node_infos : ℕ → fl.State → Store → Status × Store
    refresh_node_infos now st s = elim (fl.read st meta_nodes).0 [
      | not_found ↦ (ok, record s { node_infos = [] })
      | Status.ok ↦ elim (pb.parse_nodes (fl.read st meta_nodes).1) [
        | none ↦ (corruption, s)
        | some ns ↦
            (ok, record s { node_infos = refresh_nodes now ns s.node_infos (keys s.node_infos) })
      ]
      | failure ↦ (failure, s)
    ]

    -- RestoreNodeInfos
    unfoldable pub restore_node_infos : ℕ → fl.State → Store → Status × Store
    restore_node_infos now st s = refresh_node_infos now st (record s { node_infos = [] })
