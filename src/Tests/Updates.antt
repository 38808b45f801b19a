-- ===== src/Tests/Updates.antt =====
-- A table that is added, and a ping, on src/meta/zp_meta_info_store.cc and
-- src/meta/zp_meta_update_thread.cc over a floyd in memory.
use Prim.Native.String.{String, [] as no_chars, ◌∷◌ as ◌∷ₛ◌}
use Prim.Native.Char.{char}
use text.Mathlib.Text.{◌==◌ as str_eq}
use text.Mathlib.TextEquality.{eq_iff}
use zeppelin.Base.{
  ◌≡◌, ◌⊎◌, refl, sym, ap, ◌∙◌, Bool, true, false, ◌&&◌, Option, none, some, List, [], ◌∷◌, ◌==◌,
  arith, if◌then◌else◌, of_some,
}
use zeppelin.Base.Int.{ℤ, pos, negsuc}
use zeppelin.Base.Assoc.{lookup, insert, erase}
use zeppelin.Base.Sets.{has_elem}
use zeppelin.Env.{ok, not_found, invalid_argument, incomplete}
use zeppelin.Meta.Data.{Node, Partition, Table, PState}
use zeppelin.Meta.Snapshot.{
  alive, add_table, handover, delete_slave, change_partition, find_partition, find_in,
}
use zeppelin.Meta.Refresh.{refresh_table_with_node_alive, refresh_tables, refresh_partitions}
use zeppelin.Meta.Store.{
  Floyds, Protos, Store, meta_tables, load_meta_info, refresh, read_epoch, load_members,
  shifted_members, load_tables, add_partitions,
}
use zeppelin.Meta.Store.Loads.{charged, names_node, partitions_of, stored, load_meta_info-tables}
use zeppelin.Meta.Store.Apply.{
  Taken, get_snapshot, write_back, apply, epoch_change, write_tables, put_names, put_nodes,
  put_members, put_version,
}
use zeppelin.Meta.Store.Apply.Orders.{FloydLaws, IsApart}
use zeppelin.Meta.Store.Apply.Refreshes.{ProtoLaws}
use zeppelin.Meta.Store.Ping.{Report, update_node_info}
use zeppelin.Meta.Store.Ping.Reports.{
  offset_at, last_report, has_clear, knows, update_node_info-offsets,
}
use zeppelin.Meta.Update.{
  adds_slave, Queue, Update, adds_table, hands_over, Applied, prepared, apply_updates, retry,
  run_task, run_tasks,
}
use zeppelin.Meta.Update.Composes.{apply_updates-tables}
use zeppelin.Meta.Commands.{add_partition_slave}
use zeppelin.Meta.Commands.Pends.{Admits, add_partition_slave-run_task}
use zeppelin.Tests.Instances.{unary, print, scan, scan-print}
use zeppelin.Tests.Migrates.{print_names, scan_names, scan_names-print_names, found, nothing_stored}

abbrev mine : Node
mine = record { ip = "m"; port = 1 }

abbrev floyd : Floyds
floyd = record {
  State = String → Option String;
  read = λ st k. found (st k);
  write = λ st k v. (ok, λ j. if str_eq k j then some v else st j);
  change_server = λ st n b. (ok, st);
  all_servers = λ st. (ok, print 101 "m" ∷ []);
}

read-write_same :
    (k v : String) (o : Option String) → found (if str_eq k k then some v else o) ≡ (ok, v)
read-write_same k v o = ground (arith, eq_iff k k)

read-write_apart :
    (b : Bool) (v : String) (o : Option String)
    → b ≡ false
    → found (if b then some v else o) ≡ found o
read-write_apart b v o e = rw e

floyd_laws : FloydLaws floyd
floyd_laws = record {
  read-write = λ st k v e. read-write_same k v (st k);
  read-write_other = λ st j k v e. read-write_apart (str_eq k j) v (st j) e;
  read-change_server = λ st n b j. refl;
}

-- Tables without partitions are written as their names, epochs with a sign before the number.
abbrev bare : Table → List Partition → Option String
bare t [] = some t.name
bare t (p ∷ ps) = none

abbrev print_int : ℤ → String
print_int (pos n) = char 43 tt ∷ₛ print n ""
print_int (negsuc n) = char 45 tt ∷ₛ print n ""

abbrev signed : Bool → Option Node → Option ℤ
signed b none = none
signed b (some n) = some (if b then negsuc n.port else pos n.port)

abbrev scan_int : String → Option ℤ
scan_int no_chars = none
scan_int (char c p ∷ₛ s) = signed (c == 45) (scan s)

abbrev protos : Protos
protos = record {
  serialize_names = λ ns. some (print_names ns);
  parse_names = λ v. some (scan_names v);
  serialize_table = λ t. bare t t.partitions;
  parse_table = λ v. some (record { name = v; partitions = [] });
  serialize_nodes = λ ns. none;
  parse_nodes = λ v. none;
  unset_port = 0;
  to_string = print_int;
  stoi = scan_int;
}

parse-bare :
    (t : Table) (ps : List Partition) (v : String)
    → t.partitions ≡ ps
    → bare t ps ≡ some v
    → some (record { name = v; partitions = [] }) ≡ some t
parse-bare t [] v e h =
    ap (λ (n : String). some (record { name = n; partitions = [] })) (sym (of_some h))
    ∙ ap (λ (ps : List Partition). some (record { name = t.name; partitions = ps })) (sym e)
parse-bare t (p ∷ ps) v e h = absurd (ground (arith, h))

scan_int-print_int : (e : ℤ) → scan_int (print_int e) ≡ some e
scan_int-print_int (pos n) = ap (signed false) (scan-print n "")
scan_int-print_int (negsuc n) = ap (signed true) (scan-print n "")

proto_laws : ProtoLaws protos
proto_laws = record {
  parse-serialize_names = λ ns v e.
      ap (λ (s : String). some (scan_names s)) (sym (of_some e))
      ∙ ap some (scan_names-print_names ns);
  parse-serialize_table = λ t v e. parse-bare t t.partitions v refl e;
  stoi-to_string = scan_int-print_int;
}

-- The server after its first refresh, and a table to add.
abbrev first : Store
first = record {
  epoch = negsuc 0;
  members = print 1 "m" ∷ [];
  table_info = [];
  node_table = [];
  node_infos = [];
}

abbrev songs : Table
songs = record { name = "songs"; partitions = [] }

abbrev taken : Taken
taken = record {
  snap_epoch = negsuc 0;
  snap = record {
    members_change = [];
    tables = ("songs", songs) ∷ [];
    nodes = [];
    node_table = [];
    node_changed = false;
    table_changed = ("songs", true) ∷ [];
  };
}

taken-IsApart : IsApart unary protos floyd floyd_laws taken.snap.table_changed
taken-IsApart = record { tables_apart = refl; nodes_apart = refl; version_apart = refl }

abbrev loaded_store : Store
loaded_store = record first { epoch = pos 0; table_info = ("songs", songs) ∷ [] }

abbrev after : String → Option String
after = (write_back unary protos floyd taken nothing_stored).1

tables_read : (floyd.read after meta_tables).0 ≡ ok
unfolding write_back epoch_change write_tables put_names put_nodes put_members put_version lookup
tables_read = refl

names_read : protos.parse_names (floyd.read after meta_tables).1 ≡ some ("songs" ∷ [])
unfolding write_back epoch_change write_tables put_names put_nodes put_members put_version lookup
names_read = refl

load_first :
    load_meta_info unary protos floyd after first
    ≡ (ok, record first { table_info = ("songs", songs) ∷ [] })
unfolding write_back epoch_change write_tables put_names put_nodes put_members put_version
    load_meta_info load_tables add_partitions lookup insert erase
load_first = refl

load_meta_info-tables_example :
    ((name : String)
      → lookup name (("songs", songs) ∷ [])
        ≡ (if has_elem name ("songs" ∷ []) then stored unary protos floyd after name else none))
    × ((ip name : String)
        → charged ip name [] ≡ (
            has_elem name ("songs" ∷ [])
            && names_node unary ip
                (partitions_of unary protos floyd (stored unary protos floyd after name))))
load_meta_info-tables_example =
    load_meta_info-tables unary protos floyd after first
      (record first { table_info = ("songs", songs) ∷ [] }) ("songs" ∷ []) tables_read names_read
      load_first

abbrev tasks : List Update
tasks = adds_table songs ∷ hands_over "x" (pos 0) "l" "r" ∷ []

prepared-first : prepared unary protos floyd 5 tasks first ≡ some taken
unfolding prepared get_snapshot run_tasks run_task add_table handover delete_slave change_partition
    find_partition find_in refresh_table_with_node_alive refresh_tables refresh_partitions lookup
    insert erase
prepared-first = refl

abbrev applied : Applied unary protos floyd
applied = record {
  status = ok;
  state = after;
  store = loaded_store;
  put_back = 0;
  erased = hands_over "x" (pos 0) "l" "r" ∷ [];
}

apply_updates-first :
    apply_updates unary protos floyd 1 (λ n. false) mine 5 tasks nothing_stored first ≡ some applied
unfolding apply_updates retry prepared get_snapshot run_tasks run_task add_table handover
    delete_slave change_partition find_partition find_in refresh_table_with_node_alive
    refresh_tables refresh_partitions apply write_back epoch_change write_tables put_names put_nodes
    put_members put_version refresh read_epoch load_members shifted_members load_meta_info
    load_tables add_partitions lookup insert erase
apply_updates-first = refl

apply_updates-tables_example :
    ((name : String) → lookup name loaded_store.table_info ≡ lookup name taken.snap.tables)
    × (pos 0 ≡ pos 0)
unfolding lookup
apply_updates-tables_example =
    apply_updates-tables unary protos floyd floyd_laws proto_laws 1 (λ n. false) mine 5 tasks
      nothing_stored first taken applied prepared-first taken-IsApart
      (λ name table e. absurd (ground (arith, e))) refl apply_updates-first refl

-- A node that has an old offset pings with one report, after one that asks to clear.
abbrev reports : List Report
reports =
    record { table_name = "songs"; partition = some 0; filenum = pos 1; offset = pos 20 }
    ∷ record { table_name = ""; partition = none; filenum = pos 0; offset = pos 0 }
    ∷ []

abbrev pinged : Store
pinged = record first {
  node_infos =
      (
        print 1 "m",
        record {
          last_alive_time = 4;
          offsets = ("old", record { filenum = pos 0; offset = pos 7 }) ∷ [];
        },
      )
      ∷ [];
}

knows_mine : knows unary (print 1 "m") pinged.node_infos ≡ true
unfolding lookup
knows_mine = refl

update_node_info-offsets_example :
    ((key : String)
      → offset_at unary
          (print 1 "m")
          key
          (update_node_info unary 9 mine reports pinged).1.node_infos
        ≡ (if has_clear unary reports
            then last_report unary key reports none
            else last_report unary key reports
                (offset_at unary (print 1 "m") key pinged.node_infos)))
    × ((update_node_info unary 9 mine reports pinged).0
        ≡ (if alive (lookup (print 1 "m") pinged.node_infos) then ok else not_found))
update_node_info-offsets_example =
    update_node_info-offsets unary 9 mine reports pinged refl knows_mine

abbrev idle : Queue
idle = record { is_stuck = false; should_stop = false; tasks = [] }

abbrev lists : Store
lists = record loaded_store {
  table_info =
      (
        "lists",
        record {
          name = "lists";
          partitions = record { id = 0; state = PState.active; master = mine; slaves = [] } ∷ [];
        },
      )
      ∷ [];
}

abbrev other : Node
other = record { ip = "o"; port = 2 }

add_partition_slave-run_task_example :
    ((¬ Admits lists "lists" (pos 0) other)
      × (add_partition_slave unary lists idle "lists" (pos 0) other ≡ (invalid_argument, idle)))
    ⊎ (Admits lists "lists" (pos 0) other
        × (false ≡ true)
        × (add_partition_slave unary lists idle "lists" (pos 0) other ≡ (incomplete, idle)))
    ⊎ (Admits lists "lists" (pos 0) other
        × (false ≡ false)
        × (add_partition_slave unary lists idle "lists" (pos 0) other
            ≡ (ok, record idle { tasks = adds_slave "lists" (pos 0) (print 2 "o") ∷ [] }))
        × ((run_task unary 3 (adds_slave "lists" (pos 0) (print 2 "o")) (get_snapshot lists).snap).0
            ≡ ok))
add_partition_slave-run_task_example =
    add_partition_slave-run_task unary lists idle "lists" (pos 0) other 3
