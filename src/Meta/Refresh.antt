-- ===== src/Meta/Refresh.antt =====
-- RefreshTableWithNodeAlive of src/meta/zp_meta_info_store.cc. `none` stands for an access to a
-- repeated field outside its size, which protobuf excludes.
pub mod Best
pub mod Rounds
use Prim.Native.String.{String}
use zeppelin.Base.{
  ℕ, zero, suc, ◌+◌, Bool, true, false, ◌&&◌, ◌||◌, not, Option, none, some, List, [], ◌∷◌, ◌++◌,
  length, get_elem?, set, ltb, if◌then◌else◌,
}
use zeppelin.Base.Assoc.{lookup, insert}
use zeppelin.Env.{Status, not_found}
use zeppelin.Meta.Data.{
  Node, Partition, Table, NodeOffset, no_offset, offset_ge, Formats, is_node_empty, empty_node,
  get_offset,
}
use zeppelin.Meta.Snapshot.{Snapshot, is_node_up, remove_last, last_or}

-- The swap with the slave n at place k.
unfoldable pub promote : Partition → ℕ → Node → Option Partition
promote p k n =
    if is_node_empty p.master
    then if ltb k (length (remove_last p.slaves))
      then some
          (record p { master = n; slaves = set (remove_last p.slaves) k (last_or n p.slaves) })
      else none
    else some (record p { master = n; slaves = set p.slaves k p.master })

module _ (fm : Formats) where
  -- GetNodeOffset
  unfoldable pub get_node_offset : Snapshot → Node → String → ℕ → NodeOffset → Status × NodeOffset
  get_node_offset s n table partition_id noffset = elim (lookup (fm.ip_port n) s.nodes) [
    | none ↦ (not_found, noffset)
    | some i ↦ get_offset fm i table partition_id noffset
  ]

  -- tmp_offset of the slave at place j. The source passes j where GetNodeOffset takes a partition.
  unfoldable pub slave_offset : Snapshot → String → Node → ℕ → NodeOffset
  slave_offset s table n j = (get_node_offset s n table j no_offset).1

  -- The loop over the slaves from place j on: max_slave, over it and max_offset so far.
  unfoldable pub max_slave : Snapshot → String → List Node → ℕ → Option ℕ → NodeOffset → Option ℕ
  max_slave s table [] j best max_offset = best
  max_slave s table (n ∷ ns) j best max_offset =
      let better = is_node_up fm s n && offset_ge (slave_offset s table n j) max_offset in
      max_slave s table ns (suc j) (if better then some j else best)
        (if better then slave_offset s table n j else max_offset)

  -- A master that is down goes behind the slaves, and leaves an empty one.
  unfoldable pub shelve : Snapshot → Partition → Partition
  shelve s p =
      if not (is_node_empty p.master) && not (is_node_up fm s p.master)
      then record p { master = empty_node; slaves = p.slaves ++ p.master ∷ [] }
      else p

  -- The partition after its round, and whether table_changed_ was set.
  unfoldable pub refresh_partition : Snapshot → String → Partition → Option (Partition × Bool)
  refresh_partition s table p =
      if is_node_up fm s p.master
      then some (p, false)
      else elim (max_slave s table p.slaves 0 none no_offset) [
        | none ↦ some (shelve s p, true)
        | some k ↦ elim (get_elem? p.slaves k) [
          | none ↦ none
          | some n ↦ elim (promote p k n) [ none ↦ none | some p' ↦ some (shelve s p', true) ]
        ]
      ]

  unfoldable pub refresh_partitions :
      Snapshot → String → List Partition → Option (List Partition × Bool)
  refresh_partitions s table [] = some ([], false)
  refresh_partitions s table (p ∷ ps) = elim (refresh_partition s table p) [
    | none ↦ none
    | some (p', changed) ↦ elim (refresh_partitions s table ps) [
      | none ↦ none
      | some (ps', rest) ↦ some (p' ∷ ps', changed || rest)
    ]
  ]

  unfoldable pub refresh_tables :
      Snapshot → List (String × Table) → Option (List (String × Table) × List (String × Bool))
  refresh_tables s [] = some ([], s.table_changed)
  refresh_tables s ((name, t) ∷ ts) = elim (refresh_partitions s name t.partitions) [
    | none ↦ none
    | some (ps, changed) ↦ elim (refresh_tables s ts) [
      | none ↦ none
      | some (ts', flags) ↦ some (
        (name, record t { partitions = ps }) ∷ ts',
        if changed then insert name true flags else flags,
      )
    ]
  ]

  unfoldable pub refresh_table_with_node_alive : Snapshot → Option Snapshot
  refresh_table_with_node_alive s = elim (refresh_tables s s.tables) [
    | none ↦ none
    | some (ts, flags) ↦ some (record s { tables = ts; table_changed = flags })
  ]
