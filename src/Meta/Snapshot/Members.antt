-- ===== src/Meta/Snapshot/Members.antt =====
-- The nodes of one partition under SetMaster, AddSlave and DeleteSlave of
-- src/meta/zp_meta_info_store.cc: the addresses of its master and slaves, empty nodes left out.
use Prim.Native.String.{String}
use mathlib.Core.List.{Perm, filter_map}
use mathlib.Core.List.Perm
use zeppelin.Base.{
  ℕ, zero, suc, ◌≡◌, refl, subst, inl, inr, true, Option, none, some, List, [], ◌∷◌, get_elem?, set,
  if◌then◌else◌, arith, Bool-cases, Option-cases, of_some,
}
use zeppelin.Meta.Data.{Node, Partition, Formats, is_node_empty, is_same_node}
use zeppelin.Meta.Snapshot.{remove_last, last_or, find_slave, swap_master}

remove_last-perm : (x : Node) (xs : List Node) → Perm (last_or x xs ∷ remove_last (x ∷ xs)) (x ∷ xs)
remove_last-perm x [] = Perm.refl (x ∷ [])
remove_last-perm x (y ∷ ys) =
    Perm.trans (Perm.swap x (last_or y ys) (remove_last (y ∷ ys)))
      (Perm.cons x (remove_last-perm y ys))

set-perm :
    (x y : Node) (xs : List Node) (i : ℕ) → get_elem? xs i ≡ some x → Perm (x ∷ set xs i y) (y ∷ xs)
set-perm x y [] i e = absurd (ground arith)
set-perm x y (z ∷ zs) zero e = rw (of_some e) (Perm.swap y x zs)
set-perm x y (z ∷ zs) (suc i) e =
    Perm.trans (Perm.swap z x (set zs i y))
      (Perm.trans (Perm.cons z (set-perm x y zs i e)) (Perm.swap y z zs))

pub remove_last-set :
    (z y : Node) (ys : List Node) (i : ℕ) (v : Node)
    → remove_last (z ∷ set (y ∷ ys) i v) ≡ z ∷ remove_last (set (y ∷ ys) i v)
remove_last-set z y ys zero v = refl
remove_last-set z y ys (suc i) v = refl

-- The slave at place i leaves, and the last one takes its place.
swap_remove-perm :
    (x d : Node) (xs : List Node) (i : ℕ)
    → get_elem? xs i ≡ some x
    → Perm (x ∷ remove_last (set xs i (last_or d xs))) xs
swap_remove-perm x d [] i e = absurd (ground arith)
swap_remove-perm x d (z ∷ []) zero e = rw (of_some e) (Perm.refl (x ∷ []))
swap_remove-perm x d (z ∷ []) (suc i) e = absurd (ground arith)
swap_remove-perm x d (z ∷ y ∷ ys) zero e = rw (of_some e) (Perm.cons x (remove_last-perm y ys))
swap_remove-perm x d (z ∷ y ∷ ys) (suc i) e = rw (remove_last-set z y ys i (last_or y ys)) (
    Perm.trans (Perm.swap z x (remove_last (set (y ∷ ys) i (last_or y ys))))
      (Perm.cons z (swap_remove-perm x z (y ∷ ys) i e)))

module _ (fm : Formats) where
  pub find_slave-found :
      (ns : List Node) (ip_port : String) (i : ℕ)
      → find_slave fm ns ip_port ≡ some i
      → (n : Node) × (get_elem? ns i ≡ some n) × (is_same_node fm n ip_port ≡ true)
  unfolding find_slave
  find_slave-found [] ip_port i e = absurd (ground arith)
  find_slave-found (n ∷ ns) ip_port i e = elim (Bool-cases (is_same_node fm n ip_port)) [
    | inl same ↦ (n, ground (arith, same), same)
    | inr other ↦ elim (Option-cases (find_slave fm ns ip_port)) [
      | inl none_left ↦ absurd (ground (arith, other, none_left))
      | inr (j, there) ↦
          let at : suc j ≡ i = ground (arith, other, there) in
          let (m, at_j, same) = find_slave-found ns ip_port j there in
          (m, subst (λ (k : ℕ). get_elem? (n ∷ ns) k ≡ some m) at at_j, same)
    ]
  ]

  unfoldable pub address : Node → Option String
  address n = if is_node_empty n then none else some (fm.ip_port n)

  -- The addresses of a partition's nodes.
  unfoldable pub addresses : Partition → List String
  addresses p = filter_map (address) (p.master ∷ p.slaves)

  pub addresses-empty :
      (p : Partition) → is_node_empty p.master ≡ true → addresses p ≡ filter_map address p.slaves
  unfolding addresses address filter_map
  addresses-empty p gone = rw (gone, filter_map)

  pub swap_master-perm :
      (p : Partition) (i : ℕ) (n : Node)
      → get_elem? p.slaves i ≡ some n
      → Perm (addresses (swap_master p i n)) (addresses p)
  unfolding addresses swap_master address
  swap_master-perm p i n e = elim (Bool-cases (is_node_empty p.master)) [
    | inl gone ↦
        rw gone
          (rw (addresses-empty p gone) (Perm.filter_map _ (swap_remove-perm n n p.slaves i e)))
    | inr there ↦ rw there (Perm.filter_map _ (set-perm n p.master p.slaves i e))
  ]
