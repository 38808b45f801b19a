-- ===== src/Meta/Update/Tracks.antt =====
-- The snapshot of src/meta/zp_meta_info_store.cc under the tasks of the update thread: which tables
-- it marks as changed.
use Prim.Native.String.{String}
use text.Mathlib.Text.{◌==◌ as str_eq}
use text.Mathlib.TextEquality.{eq_iff}
use zeppelin.Base.{
  ℕ, ◌≡◌, refl, sym, ap, ◌∙◌, subst, inl, inr, ◌⊎◌, Bool, true, false, Option, none, some, List, [],
  ◌∷◌, set, arith, Option-cases, Bool-cases,
}
use zeppelin.Base.Int.{ℤ}
use zeppelin.Base.Assoc.{lookup, insert, erase, lookup-insert, lookup-erase}
use zeppelin.Base.Sets.{is_some}
use zeppelin.Env.{Status, ok, invalid_argument}
use zeppelin.Meta.Data.{Node, PState, Partition, Table, Formats}
use zeppelin.Meta.Snapshot.{
  Snapshot, Change, Found, missing, found, find_partition, put_partition, change_partition, up_node,
  down_node, remove_nodes, add_slave, delete_slave, handover, set_master, add_table, remove_table,
  change_pstate, members_change, add_slave_to, delete_slave_from, set_master_of, change_pstate_of,
}
use zeppelin.Meta.Update.{
  Update, up, down, remove, adds_table, removes_table, adds_slave, removes_slave, sets_master,
  hands_over, sets_active, sets_stuck, sets_slowdown, adds_meta, removes_meta, unknown, run_task,
  run_tasks,
}

-- A snapshot against the tables that it was taken with: a table that is not marked is as it was, one
-- that is in table_changed_ unmarked was there, and one that is not in table_changed_ is not there.
pub record IsTracked (base : List (String × Table)) (s : Snapshot) : Type 0 where
  pub tracked :
      (name : String)
      → (lookup name s.table_changed ≡ some true) ⊎ (lookup name s.tables ≡ lookup name base)
  pub flagged :
      (name : String) → lookup name s.table_changed ≡ some false → is_some (lookup name base) ≡ true
  pub listed : (name : String) → lookup name s.table_changed ≡ none → lookup name s.tables ≡ none

IsTracked-marked :
    (base : List (String × Table)) (s s' : Snapshot) (name : String)
    → IsTracked base s
    → lookup name s'.table_changed ≡ some true
    → ((k : String) → str_eq name k ≡ false → lookup k s'.table_changed ≡ lookup k s.table_changed)
    → ((k : String) → str_eq name k ≡ false → lookup k s'.tables ≡ lookup k s.tables)
    → IsTracked base s'
IsTracked-marked base s s' name v marked flags tables = record {
  tracked = λ k. elim (Bool-cases (str_eq name k)) [
    | inl same ↦ inl (
        subst (λ (x : String). lookup x s'.table_changed ≡ some true) ((eq_iff name k).0 same)
          marked)
    | inr other ↦ elim (v.tracked k) [
      | inl e ↦ inl (flags k other ∙ e)
      | inr e ↦ inr (tables k other ∙ e)
    ]
  ];
  flagged = λ k e. elim (Bool-cases (str_eq name k)) [
    | inl same ↦ absurd (
        ground (
          arith,
          e,
          subst (λ (x : String). lookup x s'.table_changed ≡ some true) ((eq_iff name k).0 same)
              marked,
        ))
    | inr other ↦ v.flagged k (sym (flags k other) ∙ e)
  ];
  listed = λ k e. elim (Bool-cases (str_eq name k)) [
    | inl same ↦ absurd (
        ground (
          arith,
          e,
          subst (λ (x : String). lookup x s'.table_changed ≡ some true) ((eq_iff name k).0 same)
              marked,
        ))
    | inr other ↦ tables k other ∙ v.listed k (sym (flags k other) ∙ e)
  ];
}

lookup_here :
    (name : String) (c : Bool) (m : List (String × Bool)) → lookup name (insert name c m) ≡ some c
lookup_here name c m = ground (arith, lookup-insert name name c m, eq_iff name name)

lookup_apart {ℓ} :
    {V : Type ℓ} (name k : String) (c : V) (m : List (String × V))
    → str_eq name k ≡ false
    → lookup k (insert name c m) ≡ lookup k m
lookup_apart name k c m a = ground (arith, a, lookup-insert name k c m)

Found-cases :
    (o : Found) → (o ≡ missing) ⊎ ((t : Table) × (i : ℕ) × (p : Partition) × (o ≡ found t i p))
Found-cases missing = inl refl
Found-cases (found t i p) = inr (t, i, p, refl)

IsTracked-change_partition :
    (base : List (String × Table)) (s : Snapshot) (table : String) (partition : ℤ)
    (f : Partition → Change)
    → IsTracked base s
    → IsTracked base (change_partition s table partition f).1
unfolding change_partition put_partition
IsTracked-change_partition base s table partition f v =
    elim (Found-cases (find_partition s table partition)) [
      | inl e ↦ rw (change_partition, e) v
      | inr (t, i, p, e) ↦ elim (Option-cases (f p).1) [
        | inl n ↦ rw (change_partition, e, n) v
        | inr (p', n) ↦
            rw (change_partition, e, n)
              (IsTracked-marked base s (put_partition s table t i p') table v
                (lookup_here table true s.table_changed)
                (λ k a. lookup_apart table k true s.table_changed a)
                (λ k a.
                  lookup_apart table k (record t { partitions = set t.partitions i p' }) s.tables
                    a))
      ]
    ]

-- A table that is in table_changed_ and not there was removed.
readded :
    (base : List (String × Table)) (s : Snapshot) (name : String) (c : Bool)
    → IsTracked base s
    → lookup name s.tables ≡ none
    → lookup name s.table_changed ≡ some c
    → lookup name s.table_changed ≡ some true
readded base s name true v gone e = e
readded base s name false v gone e = elim (v.tracked name) [
  | inl m ↦ m
  | inr same ↦ absurd (
      ground (
        arith,
        subst (λ (o : Option Table). is_some o ≡ true) (sym same ∙ gone) (v.flagged name e),
      ))
]

IsTracked-add_table :
    (base : List (String × Table)) (s : Snapshot) (t : Table)
    → IsTracked base s
    → IsTracked base (add_table s t).1
unfolding add_table
IsTracked-add_table base s t v = elim (Option-cases (lookup t.name s.tables)) [
  | inr (u, e) ↦ rw (add_table, e) v
  | inl e ↦ elim (Option-cases (lookup t.name s.table_changed)) [
    | inl n ↦
        rw (add_table, e, n)
          (IsTracked-marked base s
            (record s {
              tables = insert t.name t s.tables;
              table_changed = insert t.name true s.table_changed;
            })
            t.name v (lookup_here t.name true s.table_changed)
            (λ k a. lookup_apart t.name k true s.table_changed a)
            (λ k a. lookup_apart t.name k t s.tables a))
    | inr (c, n) ↦
        rw (add_table, e, n)
          (IsTracked-marked base s (record s { tables = insert t.name t s.tables }) t.name v
            (readded base s t.name c v e n) (λ k a. refl)
            (λ k a. lookup_apart t.name k t s.tables a))
  ]
]

IsTracked-remove_table :
    (base : List (String × Table)) (s : Snapshot) (table : String)
    → IsTracked base s
    → IsTracked base (remove_table s table).1
unfolding remove_table
IsTracked-remove_table base s table v = elim (Option-cases (lookup table s.tables)) [
  | inl e ↦ rw (remove_table, e) v
  | inr (t, e) ↦
      rw (remove_table, e)
        (IsTracked-marked base s
          (record s {
            tables = erase table s.tables;
            table_changed = insert table true s.table_changed;
          })
          table v (lookup_here table true s.table_changed)
          (λ k a. lookup_apart table k true s.table_changed a)
          (λ k a. ground (arith, a, lookup-erase table k s.tables)))
]

-- A change that leaves the tables.
IsTracked-same :
    (base : List (String × Table)) (s s' : Snapshot)
    → s'.tables ≡ s.tables
    → s'.table_changed ≡ s.table_changed
    → IsTracked base s
    → IsTracked base s'
IsTracked-same base s s' tables flags v = record {
  tracked = λ k. elim (v.tracked k) [
    | inl e ↦ inl (ap (lookup k) flags ∙ e)
    | inr e ↦ inr (ap (lookup k) tables ∙ e)
  ];
  flagged = λ k e. v.flagged k (ap (lookup k) (sym flags) ∙ e);
  listed = λ k e. ap (lookup k) tables ∙ v.listed k (ap (lookup k) (sym flags) ∙ e);
}

up_node-tables :
    (s : Snapshot) (now : ℕ) (n : String)
    → ((up_node s now n).1.tables ≡ s.tables)
      × ((up_node s now n).1.table_changed ≡ s.table_changed)
unfolding up_node
up_node-tables s now n = (refl, refl)

down_node-tables :
    (s : Snapshot) (n : String)
    → ((down_node s n).1.tables ≡ s.tables) × ((down_node s n).1.table_changed ≡ s.table_changed)
unfolding down_node
down_node-tables s n = (ground arith, ground arith)

members_change-tables :
    (s : Snapshot) (n : String) (b : Bool)
    → ((members_change s n b).1.tables ≡ s.tables)
      × ((members_change s n b).1.table_changed ≡ s.table_changed)
unfolding members_change
members_change-tables s n b = (ground arith, ground arith)

module _ (fm : Formats) where
  remove_nodes-tables :
      (s : Snapshot) (ns : List Node)
      → ((remove_nodes fm s ns).1.tables ≡ s.tables)
        × ((remove_nodes fm s ns).1.table_changed ≡ s.table_changed)
  unfolding remove_nodes
  remove_nodes-tables s [] = (refl, refl)
  remove_nodes-tables s (n ∷ ns) =
      let (a, b) =
        remove_nodes-tables (record s { node_changed = true; nodes = erase (fm.ip_port n) s.nodes })
          ns in
      (ground (arith, a), ground (arith, b))

  IsTracked-handover :
      (base : List (String × Table)) (s : Snapshot) (table : String) (partition : ℤ)
      (left right : String)
      → IsTracked base s
      → IsTracked base (handover fm s table partition left right).1
  unfolding handover delete_slave set_master
  IsTracked-handover base s table partition left right v =
      let v1 = IsTracked-change_partition base s table partition (delete_slave_from fm left) v in
      let x1 = delete_slave fm s table partition left in
      let v2 = IsTracked-change_partition base x1.1 table partition (set_master_of fm right) v1 in
      let x2 = set_master fm x1.1 table partition right in
      let v3 =
        IsTracked-change_partition base x2.1 table partition (delete_slave_from fm left) v2 in
      elim (x1.0)
        as (λ z.
          IsTracked base
            (elim z as (λ x. Status × Snapshot) [
              | invalid_argument ↦ elim (x2.0) as (λ x. Status × Snapshot) [
                | Status.ok ↦ delete_slave fm x2.1 table partition left
                | failure ↦ (failure, x2.1)
              ]
              | _ ↦ (ok, x1.1)
            ]).1) [
              | invalid_argument ↦
                  elim (x2.0)
                    as (λ z.
                      IsTracked base
                        (elim z as (λ x. Status × Snapshot) [
                          | Status.ok ↦ delete_slave fm x2.1 table partition left
                          | failure ↦ (failure, x2.1)
                        ]).1) [ Status.ok ↦ v3 | _ ↦ v2 ]
              | _ ↦ v1
            ]

  IsTracked-run_task :
      (base : List (String × Table)) (now : ℕ) (u : Update) (s : Snapshot)
      → IsTracked base s
      → IsTracked base (run_task fm now u s).1
  unfolding run_task add_slave delete_slave set_master change_pstate
  IsTracked-run_task base now (up node) s v =
      let (a, b) = up_node-tables s now node in IsTracked-same base s (up_node s now node).1 a b v
  IsTracked-run_task base now (down node) s v =
      let (a, b) = down_node-tables s node in IsTracked-same base s (down_node s node).1 a b v
  IsTracked-run_task base now (remove nodes) s v =
      let (a, b) = remove_nodes-tables s nodes in
      IsTracked-same base s (remove_nodes fm s nodes).1 a b v
  IsTracked-run_task base now (adds_table table) s v = IsTracked-add_table base s table v
  IsTracked-run_task base now (removes_table table) s v = IsTracked-remove_table base s table v
  IsTracked-run_task base now (adds_slave table partition node) s v =
      IsTracked-change_partition base s table partition (add_slave_to fm node) v
  IsTracked-run_task base now (removes_slave table partition node) s v =
      IsTracked-change_partition base s table partition (delete_slave_from fm node) v
  IsTracked-run_task base now (sets_master table partition node) s v =
      IsTracked-change_partition base s table partition (set_master_of fm node) v
  IsTracked-run_task base now (hands_over table partition left right) s v =
      IsTracked-handover base s table partition left right v
  IsTracked-run_task base now (sets_active table partition) s v =
      IsTracked-change_partition base s table partition (change_pstate_of PState.active) v
  IsTracked-run_task base now (sets_stuck table partition) s v =
      IsTracked-change_partition base s table partition (change_pstate_of PState.stuck) v
  IsTracked-run_task base now (sets_slowdown table partition) s v =
      IsTracked-change_partition base s table partition (change_pstate_of PState.slowdown) v
  IsTracked-run_task base now (adds_meta node) s v =
      let (a, b) = members_change-tables s node true in
      IsTracked-same base s (members_change s node true).1 a b v
  IsTracked-run_task base now (removes_meta node) s v =
      let (a, b) = members_change-tables s node false in
      IsTracked-same base s (members_change s node false).1 a b v
  IsTracked-run_task base now unknown s v = v

  pub IsTracked-run_tasks :
      (base : List (String × Table)) (now : ℕ) (us : List Update) (s : Snapshot)
      → IsTracked base s
      → IsTracked base (run_tasks fm now us s).1
  unfolding run_tasks
  IsTracked-run_tasks base now [] s v = v
  IsTracked-run_tasks base now (u ∷ us) s v =
      IsTracked-run_tasks base now us (run_task fm now u s).1 (IsTracked-run_task base now u s v)
