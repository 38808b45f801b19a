-- ===== src/Meta/Store/Apply.antt =====
-- GetSnapshot and Apply of src/meta/zp_meta_info_store.cc: the way of the update thread's changes into
-- floyd and back. The epoch does not reach the limit of int. An operation on floyd that fails may have
-- changed it.
pub mod Orders
pub mod Refreshes
use Prim.Native.String.{String}
use zeppelin.Base.{
  ℕ, Bool, true, false, ◌&&◌, ◌||◌, not, Option, none, some, List, [], ◌∷◌, ◌++◌, ltb,
  if◌then◌else◌,
}
use zeppelin.Base.Int.{ℤ, int_eq, int_suc}
use zeppelin.Base.Assoc.{lookup}
use zeppelin.Env.{Status, ok, corruption, invalid_argument, io_error, is_ok}
use zeppelin.Meta.Data.{Node, Table, NodeInfo, Formats}
use zeppelin.Meta.Snapshot.{Snapshot}
use zeppelin.Meta.Store.{
  Floyds, Protos, Store, meta_tables, meta_nodes, meta_version, initialed, refresh,
  refresh_node_infos,
}

-- A snapshot with its snap_epoch_.
pub record Taken : Type 0 where
  pub snap_epoch : ℤ
  pub snap : Snapshot

abbrev pub unchanged : List (String × Table) → List (String × Bool)
unchanged [] = []
unchanged ((name, t) ∷ ts) = (name, false) ∷ unchanged ts

-- GetSnapshot, with GetAllTables and GetAllNodes
unfoldable pub get_snapshot : Store → Taken
get_snapshot s = record {
  snap_epoch = s.epoch;
  snap = record {
    members_change = [];
    tables = s.table_info;
    nodes = if initialed s then s.node_infos else [];
    node_table = s.node_table;
    node_changed = false;
    table_changed = unchanged s.table_info;
  };
}

-- SerializeNodes; `last` is what the variables ip and port hold, which an address that cannot be
-- parsed leaves as they are.
unfoldable pub node_states : Formats → Node → List (String × NodeInfo) → List (Node × Bool)
node_states fm last [] = []
node_states fm last ((ip_port, i) ∷ is) =
    let n : Node = elim (fm.parse ip_port) [ none ↦ last | some parsed ↦ parsed ] in
    (n, ltb 0 i.last_alive_time) ∷ node_states fm n is

module _ (fm : Formats) (pb : Protos) (fl : Floyds) where
  -- What the loop over table_changed_ ends with: the status, floyd, table_list and epoch_change.
  pub record TablesWritten : Type 0 where
    pub status : Status
    pub state : fl.State
    pub names : List String
    pub changed : Bool

  unfoldable pub write_tables :
      List (String × Table) → List (String × Bool) → fl.State → List String → Bool → TablesWritten
  write_tables tables [] st names changed = record {
    status = ok;
    state = st;
    names = names;
    changed = changed;
  }
  write_tables tables ((name, c) ∷ cs) st names changed = elim (lookup name tables) [
    | none ↦ write_tables tables cs st names true
    | some t ↦ elim c [
      | false ↦ write_tables tables cs st (names ++ name ∷ []) changed
      | true ↦ elim (pb.serialize_table t) [
        | none ↦ record {
          status = invalid_argument;
          state = st;
          names = names ++ name ∷ [];
          changed = true;
        }
        | some v ↦ elim (is_ok (fl.write st name v).0) [
          | false ↦ record {
            status = io_error;
            state = (fl.write st name v).1;
            names = names ++ name ∷ [];
            changed = true;
          }
          | true ↦ write_tables tables cs (fl.write st name v).1 (names ++ name ∷ []) true
        ]
      ]
    ]
  ]

  -- A write of a serialized message, and the next one if it succeeds.
  abbrev pub put_text : String → Option String → fl.State → Status × fl.State
  put_text key none st = (invalid_argument, st)
  put_text key (some v) st =
      (if is_ok (fl.write st key v).0 then ok else io_error, (fl.write st key v).1)

  abbrev pub and_then : Status × fl.State → (fl.State → Status × fl.State) → Status × fl.State
  and_then x f = if is_ok (x.0) then f (x.1) else x

  unfoldable pub put_names : Bool → List String → fl.State → Status × fl.State
  put_names changed names st =
      if changed then put_text meta_tables (pb.serialize_names names) st else (ok, st)

  abbrev pub serialized : List (String × NodeInfo) → Option String
  serialized nodes =
      pb.serialize_nodes (node_states fm (record { ip = ""; port = pb.unset_port }) nodes)

  unfoldable pub put_nodes : Snapshot → fl.State → Status × fl.State
  put_nodes s st = if s.node_changed then put_text meta_nodes (serialized s.nodes) st else (ok, st)

  unfoldable pub put_members : Snapshot → fl.State → Status × fl.State
  put_members s st = elim s.members_change [
    | [] ↦ (ok, st)
    | (node, is_add) ∷ ms ↦ (
      if is_ok (fl.change_server st node is_add).0 then ok else io_error,
      (fl.change_server st node is_add).1,
    )
  ]

  abbrev pub has_members : Snapshot → Bool
  has_members s = elim s.members_change [ [] ↦ false | m ∷ ms ↦ true ]

  unfoldable pub put_version : Bool → ℤ → fl.State → Status × fl.State
  put_version changed snap_epoch st =
      if changed
      then put_text meta_version (some (pb.to_string (int_suc snap_epoch))) st
      else (ok, st)

  -- epoch_change at its last test
  unfoldable pub epoch_change : Snapshot → TablesWritten → Bool
  epoch_change s w = w.changed || has_members s

  abbrev pub written : Snapshot → fl.State → TablesWritten
  written s st = write_tables s.tables s.table_changed st [] false

  -- Apply up to the refresh of the cache
  unfoldable pub write_back : Taken → fl.State → Status × fl.State
  write_back t st =
      let w = written t.snap st in
      and_then (w.status, w.state)
        (λ st1. and_then (put_names w.changed w.names st1) (λ st2.
          and_then (put_nodes t.snap st2) (λ st3.
            and_then (put_members t.snap st3) (put_version (epoch_change t.snap w) t.snap_epoch))))

  abbrev pub then_nodes :
      Bool → ℕ → fl.State → Option (Status × Store) → Option (Status × fl.State × Store)
  then_nodes node_changed now st none = none
  then_nodes node_changed now st (some (s, store)) =
      if is_ok s && node_changed
      then (let x = refresh_node_infos fm pb fl now st store in some (x.0, st, x.1))
      else some (s, st, store)

  -- Apply of the server at the address `mine`, at the time `now`
  unfoldable pub apply : Node → ℕ → Taken → fl.State → Store → Option (Status × fl.State × Store)
  apply mine now t st s =
      let w = write_back t st in
      if not (int_eq s.epoch t.snap_epoch)
      then some (corruption, st, s)
      else if not (is_ok (w.0))
      then some (w.0, w.1, s)
      else then_nodes t.snap.node_changed now w.1 (
          if epoch_change t.snap (written t.snap st)
          then refresh fm pb fl mine w.1 s
          else some (ok, s))
