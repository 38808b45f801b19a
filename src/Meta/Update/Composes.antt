-- ===== src/Meta/Update/Composes.antt =====
-- ApplyUpdates of src/meta/zp_meta_update_thread.cc from the tasks to the server's copy of the meta
-- data, by way of the snapshot and of floyd.
use Prim.Native.String.{String}
use text.Mathlib.Text.{◌==◌ as str_eq}
use zeppelin.Base.{
  ℕ, zero, suc, ◌≡◌, refl, sym, ap, ◌∙◌, subst, inl, inr, Bool, true, false, ◌&&◌, ◌||◌, not,
  Option, none, some, List, [], ◌∷◌, ◌++◌, if◌then◌else◌, arith, Option-cases, Bool-cases, of_some,
}
use zeppelin.Base.Int.{int_suc, int_eq}
use zeppelin.Base.Assoc.{lookup}
use zeppelin.Base.Sets.{has_elem, keys, is_some, has_elem-keys}
use zeppelin.Env.{Status, ok, is_ok}
use zeppelin.Meta.Data.{Node, Table, Formats}
use zeppelin.Meta.Refresh.{refresh_table_with_node_alive}
use zeppelin.Meta.Store.{Floyds, Protos, Store, meta_tables, meta_nodes, meta_version, refresh}
use zeppelin.Meta.Store.Loads.{stored}
use zeppelin.Meta.Store.Apply.{
  Taken, unchanged, get_snapshot, write_tables, written, write_back, apply, then_nodes,
  epoch_change,
}
use zeppelin.Meta.Store.Apply.Orders.{FloydLaws, marks, IsApart, write_back-other}
use zeppelin.Meta.Store.Apply.Refreshes.{ProtoLaws, apply-tables, apart_from}
use zeppelin.Meta.Update.{
  Update, run_tasks, Applied, retry, ends, prepared, apply_updates, is_io_error,
}
use zeppelin.Meta.Update.Tracks.{IsTracked, IsTracked-run_tasks}
use zeppelin.Meta.Update.Refreshed.{IsTracked-refresh_table_with_node_alive}

-- Whether a snapshot marks a table or has lost one.
abbrev pub has_change : List (String × Table) → List (String × Bool) → Bool
has_change tables [] = false
has_change tables ((name, c) ∷ cs) = c || not (is_some (lookup name tables)) || has_change tables cs

lookup-unchanged :
    (k : String) (ts : List (String × Table))
    → lookup k (unchanged ts) ≡ (if is_some (lookup k ts) then some false else none)
unfolding lookup
lookup-unchanged k [] = refl
lookup-unchanged k ((name, t) ∷ ts) = ground (arith, lookup-unchanged k ts)

IsTracked-get_snapshot : (s : Store) → IsTracked s.table_info (get_snapshot s).snap
unfolding get_snapshot
IsTracked-get_snapshot s = record {
  tracked = λ k. inr refl;
  flagged = λ k e. ground (arith, e, lookup-unchanged k s.table_info);
  listed = λ k e. elim (Option-cases (lookup k s.table_info)) [
    | inl n ↦ n
    | inr (t, n) ↦ absurd (ground (arith, e, n, lookup-unchanged k s.table_info))
  ];
}

-- Names that are marked and names that are not.
marks-lookup :
    (k : String) (cs : List (String × Bool)) → lookup k cs ≡ some true → marks k cs ≡ true
unfolding lookup
marks-lookup k [] e = absurd (ground (arith, e))
marks-lookup k ((j, c) ∷ cs) e = ground (arith, e, marks-lookup k cs)

module _ (fm : Formats) (pb : Protos) (fl : Floyds) where
  write_tables-changed :
      (tables : List (String × Table)) (cs : List (String × Bool)) (st : fl.State)
      (names : List String) (changed : Bool)
      → (changed || has_change tables cs) ≡ true
      → (write_tables fm pb fl tables cs st names changed).changed ≡ true
  unfolding write_tables
  write_tables-changed tables [] st names changed h = ground (arith, h)
  write_tables-changed tables ((name, c) ∷ cs) st names changed h =
      elim (Option-cases (lookup name tables)) [
        | inl n ↦ rw (write_tables, n) (write_tables-changed tables cs st names true refl)
        | inr (t, n) ↦ elim (Bool-cases c) [
          | inr f ↦
              rw (write_tables, n, f)
                (write_tables-changed tables cs st (names ++ name ∷ []) changed
                  (ground (arith, h, n, f)))
          | inl f ↦ elim (Option-cases (pb.serialize_table t)) [
            | inl z ↦ rw (write_tables, n, f, z)
            | inr (v, z) ↦ elim (Bool-cases (is_ok (fl.write st name v).0)) [
              | inr g ↦ rw (write_tables, n, f, z, g)
              | inl g ↦
                  rw (write_tables, n, f, z, g)
                    (write_tables-changed tables cs (fl.write st name v).1 (names ++ name ∷ []) true
                      refl)
            ]
          ]
        ]
      ]

  -- The floyd that Apply ends with reads the same as before under this key.
  SameAt : (j : String) (st : fl.State) → Option (Status × fl.State × Store) → Type 0
  SameAt j st none = Unit
  SameAt j st (some (r, st', s')) = fl.read st' j ≡ fl.read st j

  then_nodes-SameAt :
      (j : String) (st st' : fl.State) (node_changed : Bool) (now : ℕ) (o : Option (Status × Store))
      → fl.read st' j ≡ fl.read st j
      → SameAt j st (then_nodes fm pb fl node_changed now st' o)
  unfolding SameAt
  then_nodes-SameAt j st st' node_changed now none e = tt
  then_nodes-SameAt j st st' node_changed now (some (r, s)) e =
      elim (Bool-cases (is_ok r && node_changed)) [ inl h ↦ rw h e | inr h ↦ rw h e ]

  -- A key that is not one of the meta servers' and that the snapshot does not mark.
  abbrev pub IsLeft : Taken → String → Type 0
  IsLeft t j =
      (marks j t.snap.table_changed ≡ false)
      × (str_eq meta_tables j ≡ false)
      × (str_eq meta_nodes j ≡ false)
      × (str_eq meta_version j ≡ false)

  apply-SameAt :
      (laws : FloydLaws fl) (mine : Node) (now : ℕ) (t : Taken) (st : fl.State) (s : Store)
      (j : String)
      → IsLeft t j
      → SameAt j st (apply fm pb fl mine now t st s)
  unfolding apply SameAt
  apply-SameAt laws mine now t st s j (m, a, b, c) =
      let w = write_back fm pb fl t st in
      let same = write_back-other fm pb fl laws t st j m a b c in
      elim (Bool-cases (int_eq s.epoch t.snap_epoch)) [
        | inr f ↦ rw (apply, f) refl
        | inl f ↦ elim (Bool-cases (is_ok (w.0))) [
          | inr g ↦ rw (apply, f, g) same
          | inl g ↦
              rw (apply, f, g)
                (then_nodes-SameAt j st (w.1) t.snap.node_changed now
                  (if epoch_change fm pb fl t.snap (written fm pb fl t.snap st)
                    then refresh fm pb fl mine w.1 s
                    else some (ok, s))
                  same)
        ]
      ]

  -- The last call of Apply in the loop, and the floyd that it finds.
  retry-last :
      (laws : FloydLaws fl) (fuel : ℕ) (stops : ℕ → Bool) (n : ℕ) (mine : Node) (now : ℕ)
      (t : Taken) (st st' : fl.State) (s s' : Store) (r : Status) (m : ℕ)
      → retry fm pb fl fuel stops n mine now t st s ≡ some (r, st', s', m)
      → (st1 : fl.State) × (s1 : Store) × (apply fm pb fl mine now t st1 s1 ≡ some (r, st', s'))
        × ((j : String) → IsLeft t j → fl.read st1 j ≡ fl.read st j)
  unfolding retry SameAt
  retry-last laws zero stops n mine now t st st' s s' r m e = absurd (ground (arith, e))
  retry-last laws (suc fuel) stops n mine now t st st' s s' r m e =
      elim (Option-cases (apply fm pb fl mine now t st s)) [
        | inl h ↦ absurd (ground (arith, rw (retry, h) at e))
        | inr ((r1, st1, s1), h) ↦ elim (Bool-cases (not (stops n) && is_io_error r1)) [
          | inl again ↦
              let (st2, s2, last, same) =
                retry-last laws fuel stops (suc n) mine now t st1 st' s1 s' r m
                  (rw (retry, h, again) at e) in
              (
                st2,
                s2,
                last,
                λ j left.
                    same j left ∙ subst (SameAt j st) h (apply-SameAt laws mine now t st s j left),
              )
          | inr over ↦
              let is = of_some (rw (retry, h, over) at e) in
              (
                st,
                s,
                h ∙ ap (λ (x : Status × fl.State × Store × ℕ). some (x.0, x.1, x.2)) is,
                λ j left. refl,
              )
        ]
      ]

  -- The snapshot that ApplyUpdates makes is one of its store.
  prepared-IsTracked :
      (now : ℕ) (us : List Update) (s : Store) (t : Taken)
      → prepared fm pb fl now us s ≡ some t
      → IsTracked s.table_info t.snap × (t.snap_epoch ≡ s.epoch)
  unfolding prepared get_snapshot
  prepared-IsTracked now us s t e =
      let s1 = (run_tasks fm now us (get_snapshot s).snap).1 in
      elim (Option-cases (refresh_table_with_node_alive fm s1)) [
        | inl h ↦ absurd (ground (arith, rw (prepared, h) at e))
        | inr (s2, h) ↦
            let is : ◌≡◌ {A = Taken} (record { snap_epoch = s.epoch; snap = s2 }) t =
              of_some (rw (prepared, h) at e) in
            (
              subst (λ (x : Taken). IsTracked s.table_info x.snap) is
                  (IsTracked-refresh_table_with_node_alive fm s1 s.table_info s2 h (
                    IsTracked-run_tasks fm s.table_info now us (get_snapshot s).snap
                      (IsTracked-get_snapshot s))),
              ap (λ (x : Taken). x.snap_epoch) (sym is),
            )
      ]

  ends-some :
      (stops : ℕ → Bool) (us : List Update) (o : Option (Status × fl.State × Store × ℕ))
      (a : Applied fm pb fl)
      → ends fm pb fl stops us o ≡ some a
      → (n : ℕ) × (o ≡ some (a.status, a.state, a.store, n))
  ends-some stops us none a e = absurd (ground (arith, e))
  ends-some stops us (some (r, st, s, n)) a e = elim (Bool-cases (stops n || not (is_ok r))) [
    | inl h ↦ (
      n,
      ap (λ (x : Applied fm pb fl). some (x.status, x.state, x.store, n)) (of_some (rw h at e)),
    )
    | inr h ↦ (
      n,
      ap (λ (x : Applied fm pb fl). some (x.status, x.state, x.store, n)) (of_some (rw h at e)),
    )
  ]

  apply_updates-retry :
      (fuel : ℕ) (stops : ℕ → Bool) (mine : Node) (now : ℕ) (us : List Update) (st : fl.State)
      (s : Store) (t : Taken) (a : Applied fm pb fl)
      → prepared fm pb fl now us s ≡ some t
      → apply_updates fm pb fl fuel stops mine now us st s ≡ some a
      → a.status ≡ ok
      → (n : ℕ) × (retry fm pb fl fuel stops 0 mine now t st s ≡ some (ok, a.state, a.store, n))
  unfolding apply_updates
  apply_updates-retry fuel stops mine now us st s t a made e done =
      elim (Bool-cases (run_tasks fm now us (get_snapshot s).snap).0) [
        | inr h ↦ absurd (
            ground (
              arith,
              done,
              ap (λ (x : Applied fm pb fl). x.status) (of_some (rw (apply_updates, h) at e)),
            ))
        | inl h ↦
            let (n, last) =
              ends-some stops us (retry fm pb fl fuel stops 0 mine now t st s) a
                (rw (apply_updates, h, made) at e) in
            (n, last ∙ ap (λ (r : Status). some (r, a.state, a.store, n)) done)
      ]

  all_listed :
      {b : Bool} (o : Option Table) (c : Option Bool)
      → b ≡ is_some c
      → (c ≡ none → o ≡ none)
      → (if b then o else none) ≡ o
  all_listed o none e h = rw (e, h refl)
  all_listed o (some c) e h = rw e

  module _ (laws : FloydLaws fl) (codec : ProtoLaws pb) where
    -- A table that the snapshot has unmarked is in floyd as the snapshot has it.
    stored-same :
        (t : Taken) (st st1 : fl.State) (s : Store) (name : String)
        → IsTracked s.table_info t.snap
        → ((name : String) (table : Table)
            → lookup name s.table_info ≡ some table
            → stored fm pb fl st name ≡ some table)
        → ((j : String) → IsLeft t j → fl.read st1 j ≡ fl.read st j)
        → IsApart fm pb fl laws t.snap.table_changed
        → has_elem name (keys t.snap.table_changed) ≡ true
        → is_some (lookup name t.snap.tables) ≡ true
        → marks name t.snap.table_changed ≡ false
        → stored fm pb fl st1 name ≡ lookup name t.snap.tables
    stored-same t st st1 s name v has same apart here there off = elim (v.tracked name) [
      | inl m ↦ absurd (ground (arith, off, marks-lookup name t.snap.table_changed m))
      | inr kept ↦ elim (Option-cases (lookup name t.snap.tables)) [
        | inl n ↦ absurd (ground (arith, n, there))
        | inr (table, n) ↦
            let ks = keys t.snap.table_changed in
            let left : IsLeft t name = (
              off,
              apart_from meta_tables name ks apart.tables_apart here,
              apart_from meta_nodes name ks apart.nodes_apart here,
              apart_from meta_version name ks apart.version_apart here,
            ) in
            ap (λ (x : Status × String). pb.parse_table x.1) (same name left)
            ∙ (has name table (sym kept ∙ n) ∙ sym n)
      ]
    ]

    -- ApplyUpdates, where floyd has the tables of the server's copy, no table is named like a key of
    -- the meta servers, and the tasks and the refresh change a table. If it ends with OK, after
    -- however many tries of Apply, the server's tables are those of the snapshot after the tasks and
    -- the refresh, no others, and its epoch is the next one.
    pub apply_updates-tables :
        (fuel : ℕ) (stops : ℕ → Bool) (mine : Node) (now : ℕ) (us : List Update) (st : fl.State)
        (s : Store) (t : Taken) (a : Applied fm pb fl)
        → prepared fm pb fl now us s ≡ some t
        → IsApart fm pb fl laws t.snap.table_changed
        → ((name : String) (table : Table)
            → lookup name s.table_info ≡ some table
            → stored fm pb fl st name ≡ some table)
        → has_change t.snap.tables t.snap.table_changed ≡ true
        → apply_updates fm pb fl fuel stops mine now us st s ≡ some a
        → a.status ≡ ok
        → ((name : String) → lookup name a.store.table_info ≡ lookup name t.snap.tables)
          × (a.store.epoch ≡ int_suc s.epoch)
    apply_updates-tables fuel stops mine now us st s t a made apart has change e done =
        let (v, at_epoch) = prepared-IsTracked now us s t made in
        let (n, tried) = apply_updates-retry fuel stops mine now us st s t a made e done in
        let (st1, s1, last, same) =
          retry-last laws fuel stops 0 mine now t st a.state s a.store ok n tried in
        let (tables, epoch, version) =
          apply-tables fm pb fl laws codec mine now t st1 a.state s1 a.store apart
            (λ name here there off. stored-same t st st1 s name v has same apart here there off)
            (write_tables-changed t.snap.tables t.snap.table_changed st1 [] false change) last in
        (
          λ name.
              tables name
              ∙ all_listed (lookup name t.snap.tables) (lookup name t.snap.table_changed)
                  (has_elem-keys name t.snap.table_changed) (v.listed name),
          epoch ∙ ap int_suc at_epoch,
        )
