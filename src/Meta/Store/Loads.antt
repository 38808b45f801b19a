-- ===== src/Meta/Store/Loads.antt =====
-- LoadMetaInfo of src/meta/zp_meta_info_store.cc against what floyd holds.
use Prim.Native.String.{String}
use text.Mathlib.Text.{◌==◌ as str_eq}
use text.Mathlib.TextEquality.{eq_iff}
use zeppelin.Base.{
  ◌≡◌, refl, ap, ◌∙◌, subst, inl, inr, Bool, true, false, ◌&&◌, ◌||◌, not, Option, none, some, List,
  [], ◌∷◌, if◌then◌else◌, arith, Option-cases, Bool-cases,
}
use zeppelin.Base.Assoc.{lookup, lookup-insert}
use zeppelin.Base.Sets.{
  has_elem, set_insert, erase_all, keys, is_some, has_elem-set_insert, has_elem-set_erase,
  lookup-erase_all, has_elem-keys,
}
use zeppelin.Env.{Status, ok, is_ok}
use zeppelin.Meta.Data.{Node, Partition, Table, Formats, is_node_empty}
use zeppelin.Meta.Store.{
  Floyds, Protos, Store, Loading, tables_or_new, add_node_table, add_slaves, add_partitions, loaded,
  load_tables, finished, load_meta_info, meta_tables,
}

-- Whether node_table_ has this table for this address.
abbrev pub charged : String → String → List (String × List String) → Bool
charged ip table m = has_elem table (tables_or_new (lookup ip m))

module _ (fm : Formats) where
  -- Whether a partition names this address, as its master or as a slave.
  abbrev pub names_slave : String → List Node → Bool
  names_slave ip [] = false
  names_slave ip (n ∷ ns) = str_eq (fm.ip_port n) ip || names_slave ip ns

  abbrev pub names_node : String → List Partition → Bool
  names_node ip [] = false
  names_node ip (p ∷ ps) =
      (not (is_node_empty p.master) && str_eq (fm.ip_port p.master) ip)
      || names_slave ip p.slaves
      || names_node ip ps

  charged-add_node_table :
      (ip other table t : String) (m : List (String × List String))
      → charged ip t (add_node_table other table m)
        ≡ (charged ip t m || (str_eq other ip && str_eq table t))
  unfolding add_node_table
  charged-add_node_table ip other table t m =
      let ts = tables_or_new (lookup other m) in
      elim (Bool-cases (str_eq other ip)) [
        | inl h ↦
            let same = (eq_iff other ip).0 h in
            rw (lookup-insert other ip (set_insert table ts) m, h)
              (has_elem-set_insert t table ts
                ∙ ground (arith, ap (λ (o : String). has_elem t (tables_or_new (lookup o m))) same))
        | inr h ↦ rw (lookup-insert other ip (set_insert table ts) m, h) (ground arith)
      ]

  charged-add_slaves :
      (ip table t : String) (ns : List Node) (m : List (String × List String))
      → charged ip t (add_slaves fm table ns m)
        ≡ (charged ip t m || (names_slave ip ns && str_eq table t))
  unfolding add_slaves
  charged-add_slaves ip table t [] m = ground arith
  charged-add_slaves ip table t (n ∷ ns) m = ground (
    arith,
    charged-add_slaves ip table t ns (add_node_table (fm.ip_port n) table m),
    charged-add_node_table ip (fm.ip_port n) table t m,
  )

  charged-add_partitions :
      (ip table t : String) (ps : List Partition) (m : List (String × List String))
      → charged ip t (add_partitions fm table ps m)
        ≡ (charged ip t m || (names_node ip ps && str_eq table t))
  unfolding add_partitions
  charged-add_partitions ip table t [] m = ground arith
  charged-add_partitions ip table t (p ∷ ps) m = elim (Bool-cases (is_node_empty p.master)) [
    | inl h ↦ rw h (
        ground (
          arith,
          charged-add_partitions ip table t ps (add_slaves fm table p.slaves m),
          charged-add_slaves ip table t p.slaves m,
        ))
    | inr h ↦
        let m' = add_node_table (fm.ip_port p.master) table m in
        rw h (
          ground (
            arith,
            charged-add_partitions ip table t ps (add_slaves fm table p.slaves m'),
            charged-add_slaves ip table t p.slaves m',
            charged-add_node_table ip (fm.ip_port p.master) table t m,
          ))
  ]

  module _ (pb : Protos) (fl : Floyds) where
    -- The table that floyd has under this name.
    abbrev pub stored : fl.State → String → Option Table
    stored st name = pb.parse_table (fl.read st name).1

    abbrev pub partitions_of : Option Table → List Partition
    partitions_of none = []
    partitions_of (some t) = t.partitions

    -- After the loop over these names, from l to l'.
    record Loads (st : fl.State) (names : List String) (l l' : Loading) : Type 0 where
      tables :
          (name : String)
          → lookup name l'.info
            ≡ (if has_elem name names then stored st name else lookup name l.info)
      misses :
          (name : String)
          → has_elem name l'.miss ≡ (has_elem name l.miss && not (has_elem name names))
      reads : (name : String) → has_elem name names ≡ true → is_some (stored st name) ≡ true
      charges :
          (ip name : String)
          → charged ip name l'.nodes ≡ (
              charged ip name l.nodes
              || (has_elem name names && names_node ip (partitions_of (stored st name))))

    Loads-cons :
        (st : fl.State) (name : String) (names : List String) (t : Table) (l l' : Loading)
        → stored st name ≡ some t
        → Loads st names (loaded fm name t l) l'
        → Loads st (name ∷ names) l l'
    Loads-cons st name names t l l' e o = record {
      tables = λ x. elim (Bool-cases (str_eq name x)) [
        | inl h ↦ ground (arith, h, o.tables x, lookup-insert name x t l.info, stored_here x h)
        | inr h ↦ ground (arith, h, o.tables x, lookup-insert name x t l.info)
      ];
      misses = λ x. ground (arith, o.misses x, has_elem-set_erase x name l.miss, eq_iff name x);
      reads = λ x c. elim (Bool-cases (str_eq name x)) [
        | inl h ↦ rw (stored_here x h)
        | inr h ↦ o.reads x (ground (arith, h, c))
      ];
      charges = λ ip x.
          let before = charged-add_partitions ip name x t.partitions l.nodes in
          elim (Bool-cases (str_eq name x)) [
            | inl h ↦
                let there =
                  ap (λ (u : Option Table). names_node ip (partitions_of u)) (stored_here x h) in
                ground (arith, h, o.charges ip x, before, there)
            | inr h ↦ ground (arith, h, o.charges ip x, before)
          ];
    }
      where
        stored_here : (x : String) → str_eq name x ≡ true → stored st x ≡ some t
        stored_here x h = subst (λ (k : String). stored st k ≡ some t) ((eq_iff name x).0 h) e

    load_tables-Loads :
        (st : fl.State) (names : List String) (l l' : Loading)
        → load_tables fm pb fl st names l ≡ (ok, l')
        → Loads st names l l'
    unfolding load_tables
    load_tables-Loads st [] l l' e =
        subst (λ (k : Loading). Loads st [] l k) (ap (λ (x : Status × Loading). x.1) e)
          (record {
            tables = λ x. refl;
            misses = λ x. ground arith;
            reads = λ x h. absurd (ground (arith, h));
            charges = λ ip x. ground arith;
          })
    load_tables-Loads st (name ∷ names) l l' e = elim (Bool-cases (is_ok (fl.read st name).0)) [
      | inr h ↦ absurd (ground (arith, rw (load_tables, h) at e))
      | inl h ↦ elim (Option-cases (stored st name)) [
        | inl n ↦ absurd (ground (arith, rw (load_tables, h, n) at e))
        | inr (t, n) ↦
            Loads-cons st name names t l l' n
              (load_tables-Loads st names (loaded fm name t l) l' (rw (load_tables, h, n) at e))
      ]
    ]

    finished-ok :
        (s s' : Store) (x : Status × Loading)
        → finished fm pb fl s x ≡ (ok, s')
        → (x ≡ (ok, x.1))
          × (erase_all x.1.miss x.1.info ≡ s'.table_info)
          × (x.1.nodes ≡ s'.node_table)
    finished-ok s s' (Status.ok, l) e = (
      refl,
      ap (λ (x : Status × Store). x.1.table_info) e,
      ap (λ (x : Status × Store). x.1.node_table) e,
    )
    finished-ok s s' (Status.not_found, l) e = absurd (ground arith)
    finished-ok s s' (Status.corruption, l) e = absurd (ground arith)
    finished-ok s s' (Status.invalid_argument, l) e = absurd (ground arith)
    finished-ok s s' (Status.io_error, l) e = absurd (ground arith)
    finished-ok s s' (Status.end_file, l) e = absurd (ground arith)
    finished-ok s s' (Status.incomplete, l) e = absurd (ground arith)
    finished-ok s s' (Status.complete, l) e = absurd (ground arith)

    -- Where LoadMetaInfo succeeds and the list of tables is in floyd, the server's copy is what floyd
    -- holds, whatever it was before: it has the tables in the list and no others, each as stored under
    -- its name, and node_table_ has a table for an address just if the table is in the list and one
    -- of its partitions has the address as its master, not empty, or among its slaves.
    pub load_meta_info-tables :
        (st : fl.State) (s s' : Store) (names : List String)
        → (fl.read st meta_tables).0 ≡ ok
        → pb.parse_names (fl.read st meta_tables).1 ≡ some names
        → load_meta_info fm pb fl st s ≡ (ok, s')
        → ((name : String)
            → lookup name s'.table_info ≡ (if has_elem name names then stored st name else none))
          × ((ip name : String)
              → charged ip name s'.node_table
                ≡ (has_elem name names && names_node ip (partitions_of (stored st name))))
    unfolding load_meta_info lookup
    load_meta_info-tables st s s' names found names_are e =
        let l : Loading = record { info = s.table_info; miss = keys s.table_info; nodes = [] } in
        let x = load_tables fm pb fl st names l in
        let (went, info, nodes) = finished-ok s s' x (rw (load_meta_info, found, names_are) at e) in
        let o = load_tables-Loads st names l x.1 went in
        (
          λ name.
              subst
                (λ (m : List (String × Table)).
                  lookup name m ≡ (if has_elem name names then stored st name else none))
                info
                (lookup-erase_all name x.1.miss x.1.info
                  ∙ ground (arith, o.misses name, o.tables name, has_elem-keys name s.table_info)),
          λ ip name.
              subst
                (λ (m : List (String × List String)).
                  charged ip name m
                  ≡ (has_elem name names && names_node ip (partitions_of (stored st name))))
                nodes (o.charges ip name),
        )
