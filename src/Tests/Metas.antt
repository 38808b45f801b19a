-- ===== src/Tests/Metas.antt =====
-- Runs of src/meta/zp_meta_info_store.cc, with addresses in unary.
use mathlib.Core.List.{Mem}
use zeppelin.Base.{◌≡◌, ◌<◌, length, ◌⊎◌, true, false, none, some, [], ◌∷◌}
use zeppelin.Env.{ok, invalid_argument}
use zeppelin.Meta.Data.{Node, Partition, active, is_same_node}
use zeppelin.Meta.Snapshot.{Snapshot, delete_slave_from}
use zeppelin.Meta.Snapshot.Members.{addresses}
use zeppelin.Meta.Snapshot.Changes.{delete_slave_from-cases, others}
use zeppelin.Meta.Refresh.{refresh_partition}
use zeppelin.Meta.Refresh.Rounds.{Outcome, refresh_partition-Outcome}
use zeppelin.Tests.Instances.{unary}

abbrev first : Node
first = record { ip = "a"; port = 1 }

abbrev second : Node
second = record { ip = "b"; port = 2 }

abbrev third : Node
third = record { ip = "c"; port = 3 }

abbrev two_nodes : Partition
two_nodes = record { id = 0; state = active; master = first; slaves = second ∷ [] }

-- Only the second node is up.
abbrev second_up : Snapshot
second_up = record {
  members_change = [];
  tables = [];
  nodes = (unary.ip_port second, record { last_alive_time = 7; offsets = [] }) ∷ [];
  node_table = [];
  node_changed = false;
  table_changed = [];
}

delete_slave_from-cases_example :
    ((is_same_node unary first (unary.ip_port second) ≡ true)
      × (delete_slave_from unary (unary.ip_port second) two_nodes ≡ (invalid_argument, none)))
    ⊎ ((is_same_node unary first (unary.ip_port second) ≡ false)
        × (delete_slave_from unary (unary.ip_port second) two_nodes ≡ (ok, none))
        × (¬ Mem (unary.ip_port second) (addresses unary two_nodes)))
    ⊎ ((is_same_node unary first (unary.ip_port second) ≡ false)
        × (p : Partition) × (delete_slave_from unary (unary.ip_port second) two_nodes
            ≡ (ok, some p))
        × (p.master ≡ first)
        × (p.slaves ≡ others unary (unary.ip_port second) (second ∷ []))
        × (length p.slaves < 1)
        × (¬ Mem (unary.ip_port second) (addresses unary p)))
delete_slave_from-cases_example = delete_slave_from-cases unary (unary.ip_port second) two_nodes

refresh_partition-Outcome_example :
    Outcome unary second_up "t" two_nodes (refresh_partition unary second_up "t" two_nodes)
refresh_partition-Outcome_example = refresh_partition-Outcome unary second_up "t" two_nodes
