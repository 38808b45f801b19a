-- ===== src/Meta/Update/Refreshed.antt =====
-- RefreshTableWithNodeAlive of src/meta/zp_meta_info_store.cc: the tables that it marks as changed.
use Prim.Native.String.{String}
use text.Mathlib.Text.{◌==◌ as str_eq}
use zeppelin.Base.{
  ◌≡◌, refl, sym, ap, ◌∙◌, subst, inl, inr, ◌⊎◌, Bool, true, false, ◌||◌, Option, none, some, List,
  [], ◌∷◌, get_elem?, if◌then◌else◌, arith, Option-cases, Bool-cases, of_some,
}
use zeppelin.Base.Assoc.{lookup, insert, lookup-insert}
use zeppelin.Meta.Data.{Partition, Table, Formats, no_offset}
use zeppelin.Meta.Snapshot.{Snapshot, is_node_up}
use zeppelin.Meta.Refresh.{
  promote, shelve, max_slave, refresh_partition, refresh_partitions, refresh_tables,
  refresh_table_with_node_alive,
}
use zeppelin.Meta.Update.Tracks.{IsTracked}

neither : (c d : Bool) → (c || d) ≡ false → (c ≡ false) × (d ≡ false)
neither c d e = (ground (arith, e), ground (arith, e))

module _ (fm : Formats) (s : Snapshot) where
  marked :
      (a b : Partition) → ◌≡◌ {A = Option (Partition × Bool)} (some (a, true)) (some (b, false)) → ⊥
  marked a b e = ground (arith, ap (λ (x : Partition × Bool). x.1) (of_some e))

  refresh_partition-same :
      (table : String) (p p' : Partition)
      → refresh_partition fm s table p ≡ some (p', false)
      → p' ≡ p
  unfolding refresh_partition
  refresh_partition-same table p p' e = elim (Bool-cases (is_node_up fm s p.master)) [
    | inl u ↦ ap (λ (x : Partition × Bool). x.0) (sym (of_some (rw (refresh_partition, u) at e)))
    | inr u ↦ elim (Option-cases (max_slave fm s table p.slaves 0 none no_offset)) [
      | inl m ↦ absurd (marked (shelve fm s p) p' (rw (refresh_partition, u, m) at e))
      | inr (k, m) ↦ elim (Option-cases (get_elem? p.slaves k)) [
        | inl g ↦ absurd (ground (arith, rw (refresh_partition, u, m, g) at e))
        | inr (n, g) ↦ elim (Option-cases (promote p k n)) [
          | inl h ↦ absurd (ground (arith, rw (refresh_partition, u, m, g, h) at e))
          | inr (p1, h) ↦
              absurd (marked (shelve fm s p1) p' (rw (refresh_partition, u, m, g, h) at e))
        ]
      ]
    ]
  ]

  refresh_partitions-same :
      (table : String) (ps ps' : List Partition)
      → refresh_partitions fm s table ps ≡ some (ps', false)
      → ps' ≡ ps
  unfolding refresh_partitions
  refresh_partitions-same table [] ps' e = ap (λ (x : List Partition × Bool). x.0) (sym (of_some e))
  refresh_partitions-same table (p ∷ ps) ps' e =
      elim (Option-cases (refresh_partition fm s table p)) [
        | inl h ↦ absurd (ground (arith, rw (refresh_partitions, h) at e))
        | inr ((p1, c), h) ↦ elim (Option-cases (refresh_partitions fm s table ps)) [
          | inl g ↦ absurd (ground (arith, rw (refresh_partitions, h, g) at e))
          | inr ((ps1, d), g) ↦
              let both = of_some (rw (refresh_partitions, h, g) at e) in
              let flags : (c || d) ≡ false = ap (λ (x : List Partition × Bool). x.1) both in
              let (c_off, d_off) = neither c d flags in
              ap (λ (x : List Partition × Bool). x.0) (sym both)
              ∙ (ap (λ (x : Partition). x ∷ ps1)
                    (refresh_partition-same table p p1 (h ∙ ap (λ (z : Bool). some (p1, z)) c_off))
                  ∙ ap (λ (x : List Partition). p ∷ x)
                      (refresh_partitions-same table ps ps1
                        (g ∙ ap (λ (z : Bool). some (ps1, z)) d_off)))
        ]
      ]

  -- A table that the loop does not mark is as it was.
  Keeps : List (String × Table) → Option (List (String × Table) × List (String × Bool)) → Type 0
  Keeps ts none = Unit
  Keeps ts (some (ts', flags)) =
      (k : String)
      → (lookup k flags ≡ some true)
        ⊎ ((lookup k flags ≡ lookup k s.table_changed) × (lookup k ts' ≡ lookup k ts))

  Keeps-cons :
      (name : String) (t : Table) (ts ts' : List (String × Table)) (flags : List (String × Bool))
      (ps : List Partition) (changed : Bool)
      → (changed ≡ false → ps ≡ t.partitions)
      → Keeps ts (some (ts', flags))
      → Keeps ((name, t) ∷ ts) (
          some (
            (name, record t { partitions = ps }) ∷ ts',
            if changed then insert name true flags else flags,
          ))
  unfolding lookup Keeps
  Keeps-cons name t ts ts' flags ps true same h k = elim (Bool-cases (str_eq name k)) [
    | inl e ↦ inl (ground (arith, e, lookup-insert name k true flags))
    | inr e ↦ elim (h k) [
      | inl m ↦ inl (ground (arith, e, m, lookup-insert name k true flags))
      | inr (f, l) ↦
          inr (ground (arith, e, f, lookup-insert name k true flags), ground (arith, e, l))
    ]
  ]
  Keeps-cons name t ts ts' flags ps false same h k = elim (h k) [
    | inl m ↦ inl m
    | inr (f, l) ↦ inr (
      f,
      elim (Bool-cases (str_eq name k)) [
        | inl e ↦ rw e (ap (λ (x : List Partition). some (record t { partitions = x })) (same refl))
        | inr e ↦ rw e l
      ],
    )
  ]

  refresh_tables-Keeps : (ts : List (String × Table)) → Keeps ts (refresh_tables fm s ts)
  unfolding refresh_tables Keeps
  refresh_tables-Keeps [] = λ k. inr (refl, refl)
  refresh_tables-Keeps ((name, t) ∷ ts) =
      elim (Option-cases (refresh_partitions fm s name t.partitions)) [
        | inl h ↦ rw (refresh_tables, h) tt
        | inr ((ps, changed), h) ↦ elim (Option-cases (refresh_tables fm s ts)) [
          | inl g ↦ rw (refresh_tables, h, g) tt
          | inr ((ts', flags), g) ↦
              rw (refresh_tables, h, g)
                (Keeps-cons name t ts ts' flags ps changed
                  (λ off.
                    refresh_partitions-same name t.partitions ps
                      (h ∙ ap (λ (z : Bool). some (ps, z)) off))
                  (subst (Keeps ts) g (refresh_tables-Keeps ts)))
        ]
      ]

  pub IsTracked-refresh_table_with_node_alive :
      (base : List (String × Table)) (s' : Snapshot)
      → refresh_table_with_node_alive fm s ≡ some s'
      → IsTracked base s
      → IsTracked base s'
  unfolding refresh_table_with_node_alive Keeps
  IsTracked-refresh_table_with_node_alive base s' e v =
      elim (Option-cases (refresh_tables fm s s.tables)) [
        | inl h ↦ absurd (ground (arith, rw (refresh_table_with_node_alive, h) at e))
        | inr ((ts, flags), h) ↦
            let keeps = subst (Keeps s.tables) h (refresh_tables-Keeps s.tables) in
            subst (IsTracked base) (of_some (rw (refresh_table_with_node_alive, h) at e)) (record {
              tracked = λ k. elim (keeps k) [
                | inl m ↦ inl m
                | inr (f, l) ↦ elim (v.tracked k) [ inl m ↦ inl (f ∙ m) | inr b ↦ inr (l ∙ b) ]
              ];
              flagged = λ k m. elim (keeps k) [
                | inl n ↦ absurd (ground (arith, m, n))
                | inr (f, l) ↦ v.flagged k (sym f ∙ m)
              ];
              listed = λ k m. elim (keeps k) [
                | inl n ↦ absurd (ground (arith, m, n))
                | inr (f, l) ↦ l ∙ v.listed k (sym f ∙ m)
              ];
            })
      ]
