-- ===== src/Meta/Snapshot/Changes.antt =====
-- What SetMaster, AddSlave and DeleteSlave of src/meta/zp_meta_info_store.cc do to the nodes of a
-- partition, on every branch.
use Prim.Native.String.{String}
use mathlib.Core.Bool.{Bool-discrete}
use mathlib.Core.HLevel.{⊥_prop}
use mathlib.Core.List.{Perm, Mem, filter, filter_map, mem-cons, not-mem-nil}
use mathlib.Core.List.Perm
use mathlib.Core.Logic.Or
use text.Mathlib.TextEquality.{eq_iff}
use zeppelin.Base.{
  ◌≡◌, ◌≢◌, refl, ap, subst, ◌⊎◌, inl, inr, true, false, none, some, List, [], ◌∷◌, length, ◌==◌,
  ◌<◌, arith, Bool-cases, ==_iff, ◌≤◌,
}
use zeppelin.Env.{ok, invalid_argument}
use zeppelin.Meta.Data.{Node, Partition, Formats, is_node_empty, is_same_node}
use zeppelin.Meta.Snapshot.{delete_slave_from, other_slaves}
use zeppelin.Meta.Snapshot.Members.{address, addresses}

module _ (fm : Formats) where
  not_same :
      (n : Node) (ip_port : String) → is_same_node fm n ip_port ≡ false → ip_port ≢ fm.ip_port n
  unfolding is_same_node
  not_same n ip_port h e = ground (arith, eq_iff (fm.ip_port n) ip_port)

  not-mem-addresses :
      (n : Node) (ns : List Node) (ip_port : String)
      → ip_port ≢ fm.ip_port n
      → ¬ Mem ip_port (filter_map (address fm) ns)
      → ¬ Mem ip_port (filter_map (address fm) (n ∷ ns))
  unfolding address filter_map
  not-mem-addresses n ns ip_port differs absent m = elim (Bool-cases (is_node_empty n)) [
    | inl gone ↦ absent (rw (gone, filter_map) at m)
    | inr there ↦ Or.elim ⊥_prop (mem-cons.0 (rw (there, filter_map) at m)) differs absent
  ]

  -- The nodes of the list that have another address.
  abbrev pub others : String → List Node → List Node
  others ip_port = filter (λ n. Bool-discrete (is_same_node fm n ip_port) false)

  other_slaves-others :
      (ip_port : String) (ns : List Node) → other_slaves fm ip_port ns ≡ others ip_port ns
  unfolding other_slaves
  other_slaves-others ip_port [] = refl
  other_slaves-others ip_port (n ∷ ns) = elim (Bool-cases (is_same_node fm n ip_port)) [
    | inl same ↦ rw same (other_slaves-others ip_port ns)
    | inr other ↦ rw other (ap (λ c. n ∷ c) (other_slaves-others ip_port ns))
  ]

  other_slaves-absent :
      (ip_port : String) (ns : List Node)
      → ¬ Mem ip_port (filter_map (address fm) (other_slaves fm ip_port ns))
  unfolding other_slaves filter_map
  other_slaves-absent ip_port [] = not-mem-nil
  other_slaves-absent ip_port (n ∷ ns) = elim (Bool-cases (is_same_node fm n ip_port)) [
    | inl same ↦ rw same (other_slaves-absent ip_port ns)
    | inr other ↦ rw other (
        not-mem-addresses n (other_slaves fm ip_port ns) ip_port (not_same n ip_port other)
          (other_slaves-absent ip_port ns))
  ]

  length-other_slaves-le :
      (ip_port : String) (ns : List Node) → length (other_slaves fm ip_port ns) ≤ length ns
  unfolding other_slaves
  length-other_slaves-le ip_port [] = omega arith
  length-other_slaves-le ip_port (n ∷ ns) = ground (arith, length-other_slaves-le ip_port ns)

  fewer_slaves :
      (ns rest : List Node)
      → (length ns == length rest) ≡ false
      → length rest ≤ length ns
      → length rest < length ns
  fewer_slaves ns rest h le = ground (arith, h, le)

  -- The source compares the numbers of slaves, which are equal only where the slaves are.
  other_slaves-all :
      (ip_port : String) (ns : List Node)
      → length ns ≡ length (other_slaves fm ip_port ns)
      → other_slaves fm ip_port ns ≡ ns
  unfolding other_slaves
  other_slaves-all ip_port [] h = refl
  other_slaves-all ip_port (n ∷ ns) h = elim (Bool-cases (is_same_node fm n ip_port)) [
    | inl same ↦ absurd (omega (arith, length-other_slaves-le ip_port ns, rw same at h))
    | inr other ↦
        rw other (ap (λ c. n ∷ c) (other_slaves-all ip_port ns (omega (arith, rw other at h))))
  ]

  -- DeleteSlave on a partition refuses the master's address. Where the address is not the master's,
  -- it returns OK; it changes nothing if no node of the partition has the address, and else keeps
  -- the master, and of the slaves exactly those of another address, in their order, which are fewer;
  -- then no node has the address.
  pub delete_slave_from-cases :
      (ip_port : String) (p : Partition)
      → ((is_same_node fm p.master ip_port ≡ true)
          × (delete_slave_from fm ip_port p ≡ (invalid_argument, none)))
        ⊎ ((is_same_node fm p.master ip_port ≡ false)
            × (delete_slave_from fm ip_port p ≡ (ok, none))
            × (¬ Mem ip_port (addresses fm p)))
        ⊎ ((is_same_node fm p.master ip_port ≡ false)
            × (p' : Partition) × (delete_slave_from fm ip_port p ≡ (ok, some p'))
            × (p'.master ≡ p.master)
            × (p'.slaves ≡ others ip_port p.slaves)
            × (length p'.slaves < length p.slaves)
            × (¬ Mem ip_port (addresses fm p')))
  unfolding delete_slave_from addresses
  delete_slave_from-cases ip_port p = elim (Bool-cases (is_same_node fm p.master ip_port)) [
    | inl same ↦ inl (same, rw same)
    | inr other ↦
        let rest = other_slaves fm ip_port p.slaves in
        let gone : ¬ Mem ip_port (filter_map (address fm) (p.master ∷ rest)) =
          not-mem-addresses p.master rest ip_port (not_same p.master ip_port other)
            (other_slaves-absent ip_port p.slaves) in
        inr (elim (Bool-cases (length p.slaves == length rest)) [
          | inl same ↦ inl (
            other,
            rw (other, same),
            subst (λ (ns : List Node). ¬ Mem ip_port (filter_map (address fm) (p.master ∷ ns)))
                (other_slaves-all ip_port p.slaves
                  ((==_iff (length p.slaves) (length rest)).0 same))
                gone,
          )
          | inr fewer ↦ inr (
            other,
            record p { slaves = rest },
            rw (other, fewer),
            refl,
            other_slaves-others ip_port p.slaves,
            fewer_slaves p.slaves rest fewer (length-other_slaves-le ip_port p.slaves),
            gone,
          )
        ])
  ]
