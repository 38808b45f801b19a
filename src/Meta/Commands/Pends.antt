-- ===== src/Meta/Commands/Pends.antt =====
-- AddPartitionSlave of src/meta/zp_meta_server.cc and the task that it pends.
use Prim.Native.String.{String}
use mathlib.Core.List.{Mem, mem-cons, not-mem-nil}
use mathlib.Core.HLevel.{⊥_prop}
use mathlib.Core.Logic.Or
use text.Mathlib.TextEquality.{eq_iff}
use zeppelin.Base.{
  ℕ, zero, suc, ◌≡◌, ◌≢◌, ◌<◌, refl, sym, ap, ◌∙◌, subst, inl, inr, ◌⊎◌, true, false, ◌||◌, not,
  Option, some, List, [], ◌∷◌, ◌++◌, length, get_elem?, arith, Bool-cases, Option-cases,
}
use zeppelin.Base.Int.{ℤ, pos, negsuc}
use zeppelin.Base.Assoc.{lookup}
use zeppelin.Env.{ok, invalid_argument, incomplete}
use zeppelin.Meta.Data.{Node, Partition, Table, Formats}
use zeppelin.Meta.Snapshot.{find_in, find_partition, change_partition, add_slave, add_slave_to}
use zeppelin.Meta.Store.{Store, initialed}
use zeppelin.Meta.Store.Apply.{get_snapshot}
use zeppelin.Meta.Store.Ping.{
  in_size, exists_in, partition_exist_no_lock, partition_exist, partition_of, is_slave, is_master,
  has_address, has_node,
}
use zeppelin.Meta.Update.{adds_slave, Queue, pending_update, run_task}
use zeppelin.Meta.Commands.{add_partition_slave}

-- The partition is there, and the target is neither its master nor one of its slaves.
pub record Admits (s : Store) (table : String) (pnum : ℤ) (target : Node) : Type 0 where
  pub t : Table
  pub i : ℕ
  pub p : Partition
  pub is_initialed : initialed s ≡ true
  pub has_table : lookup table s.table_info ≡ some t
  pub number : pnum ≡ pos i
  pub there : get_elem? t.partitions i ≡ some p
  pub no_slave : ¬ Mem target p.slaves
  pub no_master : p.master ≢ target

at_place :
    (ps : List Partition) (i : ℕ) → i < length ps → (p : Partition) × (get_elem? ps i ≡ some p)
at_place [] i h = absurd (ground (arith, h))
at_place (p ∷ ps) zero h = (p, refl)
at_place (p ∷ ps) (suc i) h = at_place ps i (omega arith)

in_range : (ps : List Partition) (i : ℕ) (p : Partition) → get_elem? ps i ≡ some p → i < length ps
in_range [] i p e = absurd (ground (arith, e))
in_range (x ∷ ps) zero p e = omega arith
in_range (x ∷ ps) (suc i) p e = omega (arith, in_range ps i p e)

in_size-pos : (n i : ℕ) → in_size n (pos i) ≡ true → i < n
in_size-pos n i h = ground (arith, h)

pos-in_size : (n i : ℕ) → i < n → in_size n (pos i) ≡ true
pos-in_size n i h = ground (arith, h)

same_node : (a b : Node) → has_address a b ≡ true → a ≡ b
same_node a b h =
    let ips : a.ip ≡ b.ip = (eq_iff a.ip b.ip).0 (ground (arith, h)) in
    let ports : a.port ≡ b.port = ground (arith, h) in λ i. record { ip = ips i; port = ports i }

has_address_refl : (a : Node) → has_address a a ≡ true
has_address_refl a = ground (arith, eq_iff a.ip a.ip)

has_node→mem : (target : Node) (ns : List Node) → has_node target ns ≡ true → Mem target ns
has_node→mem target [] h = absurd (ground (arith, h))
has_node→mem target (n ∷ ns) h = elim (Bool-cases (has_address n target)) [
  | inl here ↦ mem-cons.1 (Or.inl (sym (same_node n target here)))
  | inr other ↦ mem-cons.1 (Or.inr (has_node→mem target ns (rw other at h)))
]

mem→has_node : (target : Node) (ns : List Node) → has_node target ns ≡ false → Mem target ns → ⊥
mem→has_node target [] h m = not-mem-nil m
mem→has_node target (n ∷ ns) h m =
    Or.elim ⊥_prop (mem-cons.0 m)
      (λ e.
        ground
          (arith, h, subst (λ (x : Node). has_address x target ≡ true) e (has_address_refl target)))
      (mem→has_node target ns (ground (arith, h)))

module _ (s : Store) (table : String) (pnum : ℤ) where
  -- What PartitionExist finds.
  record Exists : Type 0 where
    t : Table
    i : ℕ
    p : Partition
    is_initialed : initialed s ≡ true
    has_table : lookup table s.table_info ≡ some t
    number : pnum ≡ pos i
    there : get_elem? t.partitions i ≡ some p

  placed :
      (t : Table) (n : ℤ)
      → in_size (length t.partitions) n ≡ true
      → (i : ℕ) × (p : Partition) × (n ≡ pos i) × (get_elem? t.partitions i ≡ some p)
  placed t (pos i) h =
      let (p, there) = at_place t.partitions i (in_size-pos (length t.partitions) i h) in
      (i, p, refl, there)
  placed t (negsuc i) h = absurd (ground (arith, h))

  partition_exist-Exists : partition_exist s table pnum ≡ true → Exists
  unfolding partition_exist partition_exist_no_lock
  partition_exist-Exists h =
      let started : initialed s ≡ true = ground (arith, h) in
      let has : exists_in (lookup table s.table_info) pnum ≡ true = ground (arith, h) in
      elim (Option-cases (lookup table s.table_info)) [
        | inl missing ↦
            absurd (ground (arith, has, ap (λ (o : Option Table). exists_in o pnum) missing))
        | inr (t, l) ↦
            let (i, p, number, there) =
              placed t pnum (sym (ap (λ (o : Option Table). exists_in o pnum) l) ∙ has) in
            record {
              t = t;
              i = i;
              p = p;
              is_initialed = started;
              has_table = l;
              number = number;
              there = there;
            }
      ]

  module _ (e : Exists) where
    is_slave-has_node : (target : Node) → is_slave s table pnum target ≡ has_node target e.p.slaves
    unfolding is_slave partition_exist_no_lock partition_of
    is_slave-has_node target = rw (
      e.is_initialed,
      e.has_table,
      e.number,
      pos-in_size (length e.t.partitions) e.i (in_range e.t.partitions e.i e.p e.there),
      e.there,
    )

    is_master-has_address :
        (target : Node) → is_master s table pnum target ≡ has_address e.p.master target
    unfolding is_master partition_exist_no_lock partition_of
    is_master-has_address target = rw (
      e.is_initialed,
      e.has_table,
      e.number,
      pos-in_size (length e.t.partitions) e.i (in_range e.t.partitions e.i e.p e.there),
      e.there,
    )

    Exists-partition_exist : partition_exist s table pnum ≡ true
    unfolding partition_exist partition_exist_no_lock
    Exists-partition_exist = rw (
      e.is_initialed,
      e.has_table,
      e.number,
      pos-in_size (length e.t.partitions) e.i (in_range e.t.partitions e.i e.p e.there),
    )

-- The checks of the command, against what they stand for.
module _ (s : Store) (table : String) (pnum : ℤ) (target : Node) where
  refuses :
      (e : Admits s table pnum target)
      → (not (partition_exist s table pnum)
          || is_slave s table pnum target
          || is_master s table pnum target)
        ≡ true
      → ⊥
  refuses a h =
      let e : Exists s table pnum = record {
        t = a.t;
        i = a.i;
        p = a.p;
        is_initialed = a.is_initialed;
        has_table = a.has_table;
        number = a.number;
        there = a.there;
      } in
      elim (Bool-cases (has_node target a.p.slaves)) [
        | inl slave ↦ a.no_slave (has_node→mem target a.p.slaves slave)
        | inr other ↦ elim (Bool-cases (has_address a.p.master target)) [
          | inl m ↦ a.no_master (same_node a.p.master target m)
          | inr not_m ↦
              let there : partition_exist s table pnum ≡ true =
                Exists-partition_exist s table pnum e in
              let no_slave : is_slave s table pnum target ≡ false =
                is_slave-has_node s table pnum e target ∙ other in
              let no_master : is_master s table pnum target ≡ false =
                is_master-has_address s table pnum e target ∙ not_m in
              ground (arith, h, there, no_slave, no_master)
        ]
      ]

  admits :
      (e : Exists s table pnum)
      → (not (partition_exist s table pnum)
          || is_slave s table pnum target
          || is_master s table pnum target)
        ≡ false
      → Admits s table pnum target
  admits e h =
      let no_slave : is_slave s table pnum target ≡ false = ground (arith, h) in
      let no_master : is_master s table pnum target ≡ false = ground (arith, h) in
      record {
        t = e.t;
        i = e.i;
        p = e.p;
        is_initialed = e.is_initialed;
        has_table = e.has_table;
        number = e.number;
        there = e.there;
        no_slave =
            mem→has_node target e.p.slaves
              (sym (is_slave-has_node s table pnum e target) ∙ no_slave);
        no_master = λ same. ground (
          arith,
          sym (is_master-has_address s table pnum e target) ∙ no_master,
          subst (λ (x : Node). has_address x target ≡ true) (sym same) (has_address_refl target),
        );
      }

module _ (fm : Formats) where
  add_slave_to-ok : (ip_port : String) (p : Partition) → (add_slave_to fm ip_port p).0 ≡ ok
  unfolding add_slave_to
  add_slave_to-ok ip_port p = ground arith

  run_task-ok :
      (s : Store) (table : String) (pnum : ℤ) (ip_port : String) (now : ℕ)
      → Exists s table pnum
      → (run_task fm now (adds_slave table pnum ip_port) (get_snapshot s).snap).0 ≡ ok
  unfolding run_task add_slave change_partition find_partition get_snapshot find_in lookup
  run_task-ok s table pnum ip_port now e = elim (Option-cases (add_slave_to fm ip_port e.p).1) [
    | inl n ↦ rw (e.has_table, e.number, e.there, n) (add_slave_to-ok ip_port e.p)
    | inr (p', n) ↦ rw (e.has_table, e.number, e.there, n) (add_slave_to-ok ip_port e.p)
  ]

  -- AddPartitionSlave answers InvalidArgument and leaves the queue as it was exactly where the store
  -- does not have the partition, or its master or one of its slaves is the target. Else, where the
  -- update thread is stuck or should stop, it answers Incomplete and leaves the queue as it was; and
  -- where it is not, it answers OK, the queue has the task at its end, and the task, run on a
  -- snapshot of the store that the command has checked, succeeds.
  pub add_partition_slave-run_task :
      (s : Store) (q : Queue) (table : String) (pnum : ℤ) (target : Node) (now : ℕ)
      → ((¬ Admits s table pnum target)
          × (add_partition_slave fm s q table pnum target ≡ (invalid_argument, q)))
        ⊎ (Admits s table pnum target
            × ((q.is_stuck || q.should_stop) ≡ true)
            × (add_partition_slave fm s q table pnum target ≡ (incomplete, q)))
        ⊎ (Admits s table pnum target
            × ((q.is_stuck || q.should_stop) ≡ false)
            × (add_partition_slave fm s q table pnum target ≡ (
              ok,
              record q { tasks = q.tasks ++ adds_slave table pnum (fm.ip_port target) ∷ [] },
            ))
            × ((run_task fm now (adds_slave table pnum (fm.ip_port target)) (get_snapshot s).snap).0
                ≡ ok))
  unfolding add_partition_slave pending_update
  add_partition_slave-run_task s q table pnum target now =
      let test =
        not (partition_exist s table pnum)
        || is_slave s table pnum target
        || is_master s table pnum target in
      elim (Bool-cases test) [
        | inl refused ↦
            inl (λ a. refuses s table pnum target a refused, rw (add_partition_slave, refused))
        | inr h ↦
            let e = partition_exist-Exists s table pnum (ground (arith, h)) in
            let a = admits s table pnum target e h in
            inr (elim (Bool-cases q.is_stuck) [
              | inl b ↦ inl (a, rw b, rw (add_partition_slave, h, pending_update, b))
              | inr b ↦ elim (Bool-cases q.should_stop) [
                | inl c ↦ inl (a, rw (b, c), rw (add_partition_slave, h, pending_update, b, c))
                | inr c ↦ inr (
                  a,
                  rw (b, c),
                  rw (add_partition_slave, h, pending_update, b, c),
                  run_task-ok s table pnum (fm.ip_port target) now e,
                )
              ]
            ])
      ]
