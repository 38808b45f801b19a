-- ===== src/Meta/Refresh/Rounds.antt =====
-- One partition under RefreshTableWithNodeAlive of src/meta/zp_meta_info_store.cc, on every branch.
use Prim.Native.String.{String}
use mathlib.Core.List.{Perm, filter_map, perm_append_singleton}
use mathlib.Core.List.Perm
use zeppelin.Base.{
  ℕ, zero, suc, ◌≤◌, ◌<◌, ◌≡◌, refl, sym, ap, ◌∙◌, subst, inl, inr, Bool, true, false, ◌&&◌, Option,
  none, some, List, [], ◌∷◌, ◌++◌, get_elem?, set, length, arith, Bool-cases, lt→ltb, le→not-ltb,
  leb, if◌then◌else◌,
}
use zeppelin.Meta.Data.{Node, Partition, Formats, is_node_empty, empty_node, no_offset}
use zeppelin.Meta.Snapshot.{Snapshot, is_node_up, remove_last, last_or, swap_master}
use zeppelin.Meta.Snapshot.Members.{
  address, addresses, remove_last-set, addresses-empty, swap_master-perm,
}
use zeppelin.Meta.Refresh.{promote, shelve, refresh_partition, max_slave}
use zeppelin.Meta.Refresh.Best.{NoneReaches, IsBest, max_slave-IsBest}

set-remove_last :
    (xs : List Node) (k : ℕ) (v : Node)
    → k < length (remove_last xs)
    → set (remove_last xs) k v ≡ remove_last (set xs k v)
set-remove_last [] k v h = elim h [ ]
set-remove_last (x ∷ []) k v h = elim h [ ]
set-remove_last (x ∷ y ∷ ys) zero v h = refl
set-remove_last (x ∷ y ∷ ys) (suc k) v h =
    ap (λ c. x ∷ c) (set-remove_last (y ∷ ys) k v (omega arith)) ∙ sym (remove_last-set x y ys k v)

length-remove_last : (x : Node) (xs : List Node) → length (remove_last (x ∷ xs)) ≡ length xs
length-remove_last x [] = refl
length-remove_last x (y ∷ ys) = ap suc (length-remove_last y ys)

in_range : (xs : List Node) (k : ℕ) (n : Node) → get_elem? xs k ≡ some n → k < length xs
in_range [] k n e = absurd (ground arith)
in_range (x ∷ xs) zero n e = omega arith
in_range (x ∷ xs) (suc k) n e = omega (arith, in_range xs k n e)

last_place :
    (xs : List Node) (k : ℕ) (n : Node)
    → get_elem? xs k ≡ some n
    → length (remove_last xs) ≤ k
    → suc k ≡ length xs
last_place [] k n e h = absurd (ground arith)
last_place (x ∷ xs) k n e h = omega (arith, length-remove_last x xs, in_range (x ∷ xs) k n e)

promote-swap :
    (p : Partition) (k : ℕ) (n : Node)
    → (is_node_empty p.master ≡ true → k < length (remove_last p.slaves))
    → promote p k n ≡ some (swap_master p k n)
unfolding promote swap_master
promote-swap p k n h = elim (Bool-cases (is_node_empty p.master)) [
  | inl gone ↦ rw (
    gone,
    lt→ltb k (length (remove_last p.slaves)) (h gone),
    set-remove_last p.slaves k (last_or n p.slaves) (h gone),
  )
  | inr there ↦ rw there
]

both_true : (b : Bool) (m n : ℕ) → (b && leb m n) ≡ true → (b ≡ true) × (m ≤ n)
both_true b m n h = ground arith

not_both : (b : Bool) (m n : ℕ) → (b && leb m n) ≡ false → b ≡ true → n < m
not_both b m n h e = ground arith

empty_is_empty : is_node_empty empty_node ≡ true
unfolding is_node_empty
empty_is_empty = refl

promote_fault :
    (p : Partition) (k : ℕ) (n : Node)
    → is_node_empty p.master ≡ true
    → length (remove_last p.slaves) ≤ k
    → promote p k n ≡ none
unfolding promote
promote_fault p k n gone h = rw (gone, le→not-ltb k (length (remove_last p.slaves)) h)

swap_master-up :
    (fm : Formats) (s : Snapshot) (p : Partition) (k : ℕ) (n : Node)
    → is_node_up fm s n ≡ true
    → is_node_up fm s (swap_master p k n).master ≡ true
unfolding swap_master
swap_master-up fm s p k n up = elim (Bool-cases (is_node_empty p.master)) [
  | inl gone ↦ rw gone up
  | inr there ↦ rw there up
]

module _ (fm : Formats) (s : Snapshot) where
  shelve-up : (p : Partition) → is_node_up fm s p.master ≡ true → shelve fm s p ≡ p
  unfolding shelve
  shelve-up p up = ground arith

  -- Where the master is down, it is left empty, and its node is among the slaves.
  shelve-down :
      (p : Partition)
      → is_node_up fm s p.master ≡ false
      → (is_node_empty (shelve fm s p).master ≡ true)
        × Perm (addresses fm (shelve fm s p)) (addresses fm p)
  unfolding shelve addresses filter_map
  shelve-down p h = elim (Bool-cases (is_node_empty p.master)) [
    | inl gone ↦ rw (gone, shelve) (gone, Perm.refl (addresses fm p))
    | inr there ↦
        rw (there, h)
          (
            empty_is_empty,
            rw
                (addresses-empty fm
                  (record p { master = empty_node; slaves = p.slaves ++ p.master ∷ [] })
                  empty_is_empty)
                (Perm.filter_map (address fm) (perm_append_singleton p.master p.slaves)),
          )
  ]

  shelve-slaves :
      (p : Partition)
      → is_node_up fm s p.master ≡ false
      → (shelve fm s p).slaves
        ≡ (if is_node_empty p.master then p.slaves else p.slaves ++ p.master ∷ [])
  unfolding shelve
  shelve-slaves p h = elim (Bool-cases (is_node_empty p.master)) [
    | inl gone ↦ rw (gone, shelve)
    | inr there ↦ rw (there, h)
  ]

  -- What a round did to the partition p, for the table that it belongs to.
  pub data Outcome (table : String) (p : Partition) (r : Option (Partition × Bool)) : Type 0 where
    unchanged : is_node_up fm s p.master ≡ true → r ≡ some (p, false) → Outcome table p r
    none_fit :
        (p' : Partition)
        → is_node_up fm s p.master ≡ false
        → NoneReaches fm s table p.slaves 0 no_offset
        → r ≡ some (p', true)
        → is_node_empty p'.master ≡ true
        → p'.slaves ≡ (if is_node_empty p.master then p.slaves else p.slaves ++ p.master ∷ [])
        → Perm (addresses fm p') (addresses fm p)
        → Outcome table p r
    promoted :
        (p' : Partition)
        → is_node_up fm s p.master ≡ false
        → (b : IsBest fm s table p.slaves 0 no_offset
            (max_slave fm s table p.slaves 0 none no_offset))
        → r ≡ some (p', true)
        → is_node_up fm s p'.master ≡ true
        → p'.master ≡ b.node
        → Perm (addresses fm p') (addresses fm p)
        → Outcome table p r
    faulted :
        is_node_up fm s p.master ≡ false
        → is_node_empty p.master ≡ true
        → (b : IsBest fm s table p.slaves 0 no_offset
            (max_slave fm s table p.slaves 0 none no_offset))
        → suc b.i ≡ length p.slaves
        → r ≡ none
        → Outcome table p r

  swap_master-master : (p : Partition) (k : ℕ) (n : Node) → (swap_master p k n).master ≡ n
  unfolding swap_master
  swap_master-master p k n = ground arith

  -- Every round has one of these outcomes. A partition whose master is up stays as it is. A slave's
  -- offset is the one that the code looks up, under the slave's place in place of the partition.
  -- Where the master is down and no slave that is up has an offset that reaches (0, 0), the master
  -- is left empty, and a node that it held is put behind the slaves, which stay in their order.
  -- Else a slave that is up and whose offset reaches (0, 0) and that of every slave that is up
  -- becomes the master, and the partition keeps its addresses; but if the master was empty and that
  -- slave is the last one, the round writes outside the field.
  pub refresh_partition-Outcome :
      (table : String) (p : Partition) → Outcome table p (refresh_partition fm s table p)
  unfolding refresh_partition
  refresh_partition-Outcome table p = elim (Bool-cases (is_node_up fm s p.master)) [
    | inl up ↦ unchanged up (rw up)
    | inr down ↦ elim (max_slave-IsBest fm s table p.slaves) [
      | inl (no_slave, all) ↦
          let (gone, same) = shelve-down p down in
          none_fit (shelve fm s p) down all (rw (down, no_slave)) gone (shelve-slaves p down) same
      | inr b ↦
          let at : get_elem? p.slaves b.i ≡ some b.node =
            subst (λ (k : ℕ). get_elem? p.slaves k ≡ some b.node) (omega (arith, b.place))
              b.there in
          let swapped = swap_master p b.i b.node in
          let up = swap_master-up fm s p b.i b.node b.up in
          elim (Bool-cases (is_node_empty p.master && leb (length (remove_last p.slaves)) b.i)) [
            | inl last ↦
                let (gone, beyond) =
                  both_true (is_node_empty p.master) (length (remove_last p.slaves)) b.i last in
                faulted down gone b (last_place p.slaves b.i b.node at beyond)
                  (rw (down, b.chosen, at, promote_fault p b.i b.node gone beyond))
            | inr fits ↦
                promoted swapped down b
                  (rw (
                    down,
                    b.chosen,
                    at,
                    promote-swap p b.i b.node (
                        not_both (is_node_empty p.master) (length (remove_last p.slaves)) b.i fits),
                    shelve-up swapped up,
                  ))
                  up (swap_master-master p b.i b.node) (swap_master-perm fm p b.i b.node at)
          ]
    ]
  ]
