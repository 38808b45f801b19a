-- ===== src/Meta/Store/Apply/Orders.antt =====
-- What Apply of src/meta/zp_meta_info_store.cc has in floyd when it writes the epoch.
use Prim.Native.String.{String}
use text.Mathlib.Text.{◌==◌ as str_eq}
use text.Mathlib.TextEquality.{eq_iff}
use zeppelin.Base.{
  ◌≡◌, refl, sym, ap, ◌∙◌, subst, inl, inr, ◌⊎◌, Bool, true, false, ◌&&◌, ◌||◌, Option, none, some,
  List, [], ◌∷◌, ◌++◌, arith, Option-cases, Bool-cases, of_some,
}
use zeppelin.Base.Int.{ℤ, int_suc}
use zeppelin.Base.Assoc.{lookup}
use zeppelin.Base.Sets.{has_elem, keys, is_some, has_elem-append}
use zeppelin.Env.{Status, ok, is_ok}
use zeppelin.Meta.Data.{Table, Formats}
use zeppelin.Meta.Snapshot.{Snapshot}
use zeppelin.Meta.Store.{Floyds, Protos, meta_tables, meta_nodes, meta_version}
use zeppelin.Meta.Store.Apply.{
  Taken, TablesWritten, write_tables, put_text, and_then, put_names, put_nodes, put_members,
  put_version, epoch_change, written, write_back, serialized,
}

-- What the code relies on in floyd: a write that succeeds is read back, and a write, whether it
-- succeeds or not, leaves the other keys; a change of the servers leaves all of them.
pub record FloydLaws (fl : Floyds) : Type 0 where
  pub read-write :
      (st : fl.State) (k v : String)
      → (fl.write st k v).0 ≡ ok
      → fl.read (fl.write st k v).1 k ≡ (ok, v)
  pub read-write_other :
      (st : fl.State) (j k v : String)
      → str_eq k j ≡ false
      → fl.read (fl.write st k v).1 j ≡ fl.read st j
  pub read-change_server :
      (st : fl.State) (n : String) (b : Bool) (j : String)
      → fl.read (fl.change_server st n b).1 j ≡ fl.read st j

-- Whether a list of flags marks this name.
abbrev pub marks : String → List (String × Bool) → Bool
marks k [] = false
marks k ((j, c) ∷ cs) = (str_eq j k && c) || marks k cs

pub ok_of : (s : Status) → is_ok s ≡ true → s ≡ ok
ok_of Status.ok e = refl
ok_of Status.not_found e = absurd (ground arith)
ok_of Status.corruption e = absurd (ground arith)
ok_of Status.invalid_argument e = absurd (ground arith)
ok_of Status.io_error e = absurd (ground arith)
ok_of Status.end_file e = absurd (ground arith)
ok_of Status.incomplete e = absurd (ground arith)
ok_of Status.complete e = absurd (ground arith)

module _ (fm : Formats) (pb : Protos) (fl : Floyds) (laws : FloydLaws fl) where
  -- Floyd has the snapshot's table under this name.
  pub record Has (tables : List (String × Table)) (st : fl.State) (k : String) : Type 0 where
    pub table : Table
    pub text : String
    pub is_table : lookup k tables ≡ some table
    pub is_text : pb.serialize_table table ≡ some text
    pub is_read : fl.read st k ≡ (ok, text)

  pub record Writes (tables : List (String × Table)) (cs : List (String × Bool)) (st : fl.State)
      (names : List String) (w : TablesWritten fm pb fl) : Type 0 where
    pub others : (j : String) → marks j cs ≡ false → fl.read w.state j ≡ fl.read st j
    pub keeps : w.status ≡ ok → (k : String) → Has tables st k → Has tables w.state k
    pub makes :
        w.status ≡ ok
        → (k : String) → marks k cs ≡ true
        → is_some (lookup k tables) ≡ true
        → Has tables w.state k
    pub lists :
        w.status ≡ ok
        → (k : String)
        → has_elem k w.names
          ≡ (has_elem k names || (has_elem k (keys cs) && is_some (lookup k tables)))

  Writes-gone :
      (tables : List (String × Table)) (name : String) (c : Bool) (cs : List (String × Bool))
      (st : fl.State) (names : List String) (w : TablesWritten fm pb fl)
      → lookup name tables ≡ none
      → Writes tables cs st names w
      → Writes tables ((name, c) ∷ cs) st names w
  Writes-gone tables name c cs st names w n o = record {
    others = λ j m. o.others j (ground (arith, m));
    keeps = o.keeps;
    makes = λ e k m i. elim (Bool-cases (str_eq name k)) [
      | inl same ↦ absurd (
          ground
            (arith, i, subst (λ (x : String). lookup x tables ≡ none) ((eq_iff name k).0 same) n))
      | inr other ↦ o.makes e k (ground (arith, other, m)) i
    ];
    lists = λ e k. elim (Bool-cases (str_eq name k)) [
      | inl same ↦ ground (
        arith,
        same,
        o.lists e k,
        subst (λ (x : String). lookup x tables ≡ none) ((eq_iff name k).0 same) n,
      )
      | inr other ↦ ground (arith, other, o.lists e k)
    ];
  }

  listed :
      (tables : List (String × Table)) (name k : String) (cs : List (String × Bool))
      (names : List String) (t : Table)
      → lookup name tables ≡ some t
      → (has_elem k (names ++ name ∷ []) || (has_elem k (keys cs) && is_some (lookup k tables))) ≡ (
          has_elem k names
          || ((str_eq name k || has_elem k (keys cs)) && is_some (lookup k tables)))
  listed tables name k cs names t n = elim (Bool-cases (str_eq name k)) [
    | inl same ↦ ground (
      arith,
      same,
      has_elem-append k names (name ∷ []),
      subst (λ (x : String). lookup x tables ≡ some t) ((eq_iff name k).0 same) n,
    )
    | inr other ↦ ground (arith, other, has_elem-append k names (name ∷ []))
  ]

  Writes-same :
      (tables : List (String × Table)) (name : String) (cs : List (String × Bool)) (st : fl.State)
      (names : List String) (w : TablesWritten fm pb fl) (t : Table)
      → lookup name tables ≡ some t
      → Writes tables cs st (names ++ name ∷ []) w
      → Writes tables ((name, false) ∷ cs) st names w
  Writes-same tables name cs st names w t n o = record {
    others = λ j m. o.others j (ground (arith, m));
    keeps = o.keeps;
    makes = λ e k m i. o.makes e k (ground (arith, m)) i;
    lists = λ e k. o.lists e k ∙ listed tables name k cs names t n;
  }

  -- A write of a table keeps what is there of the snapshot's tables.
  Has-write :
      (tables : List (String × Table)) (st : fl.State) (name k : String) (t : Table) (v : String)
      → lookup name tables ≡ some t
      → pb.serialize_table t ≡ some v
      → (fl.write st name v).0 ≡ ok
      → (str_eq name k ≡ true) ⊎ Has tables st k
      → Has tables (fl.write st name v).1 k
  Has-write tables st name k t v n z f here = elim (Bool-cases (str_eq name k)) [
    | inl same ↦ subst (Has tables (fl.write st name v).1) ((eq_iff name k).0 same) (record {
      table = t;
      text = v;
      is_table = n;
      is_text = z;
      is_read = laws.read-write st name v f;
    })
    | inr other ↦ elim here [
      | inl same ↦ absurd (ground (arith, same, other))
      | inr h ↦ record {
        table = h.table;
        text = h.text;
        is_table = h.is_table;
        is_text = h.is_text;
        is_read = laws.read-write_other st k name v other ∙ h.is_read;
      }
    ]
  ]

  Writes-wrote :
      (tables : List (String × Table)) (name : String) (cs : List (String × Bool)) (st : fl.State)
      (names : List String) (w : TablesWritten fm pb fl) (t : Table) (v : String)
      → lookup name tables ≡ some t
      → pb.serialize_table t ≡ some v
      → (fl.write st name v).0 ≡ ok
      → Writes tables cs (fl.write st name v).1 (names ++ name ∷ []) w
      → Writes tables ((name, true) ∷ cs) st names w
  Writes-wrote tables name cs st names w t v n z f o = record {
    others = λ j m.
        o.others j (ground (arith, m)) ∙ laws.read-write_other st j name v (ground (arith, m));
    keeps = λ e k h. o.keeps e k (Has-write tables st name k t v n z f (inr h));
    makes = λ e k m i. elim (Bool-cases (str_eq name k)) [
      | inl same ↦ o.keeps e k (Has-write tables st name k t v n z f (inl same))
      | inr other ↦ o.makes e k (ground (arith, other, m)) i
    ];
    lists = λ e k. o.lists e k ∙ listed tables name k cs names t n;
  }

  pub write_tables-Writes :
      (tables : List (String × Table)) (cs : List (String × Bool)) (st : fl.State)
      (names : List String) (changed : Bool)
      → Writes tables cs st names (write_tables fm pb fl tables cs st names changed)
  unfolding write_tables
  write_tables-Writes tables [] st names changed = record {
    others = λ j h. refl;
    keeps = λ e k h. h;
    makes = λ e k h i. absurd (ground (arith, h));
    lists = λ e k. ground arith;
  }
  write_tables-Writes tables ((name, c) ∷ cs) st names changed =
      elim (Option-cases (lookup name tables)) [
        | inl n ↦
            rw (write_tables, n)
              (Writes-gone tables name c cs st names (write_tables fm pb fl tables cs st names true)
                n (write_tables-Writes tables cs st names true))
        | inr (t, n) ↦ elim (Bool-cases c) [
          | inr h ↦
              rw (write_tables, n, h)
                (Writes-same tables name cs st names
                  (write_tables fm pb fl tables cs st (names ++ name ∷ []) changed) t n
                  (write_tables-Writes tables cs st (names ++ name ∷ []) changed))
          | inl h ↦ elim (Option-cases (pb.serialize_table t)) [
            | inl z ↦
                rw (write_tables, n, h, z)
                  (record {
                    others = λ j m. refl;
                    keeps = λ e. absurd (ground (arith, e));
                    makes = λ e. absurd (ground (arith, e));
                    lists = λ e. absurd (ground (arith, e));
                  })
            | inr (v, z) ↦ elim (Bool-cases (is_ok (fl.write st name v).0)) [
              | inr f ↦
                  rw (write_tables, n, h, z, f)
                    (record {
                      others = λ j m. laws.read-write_other st j name v (ground (arith, m));
                      keeps = λ e. absurd (ground (arith, e));
                      makes = λ e. absurd (ground (arith, e));
                      lists = λ e. absurd (ground (arith, e));
                    })
              | inl f ↦
                  rw (write_tables, n, h, z, f)
                    (Writes-wrote tables name cs st names
                      (write_tables fm pb fl tables cs (fl.write st name v).1 (names ++ name ∷ [])
                        true)
                      t v n z (ok_of (fl.write st name v).0 f)
                      (write_tables-Writes tables cs (fl.write st name v).1 (names ++ name ∷ [])
                        true))
            ]
          ]
        ]
      ]

  -- No table is named like a key of the meta servers.
  pub record IsApart (cs : List (String × Bool)) : Type 0 where
    pub tables_apart : has_elem meta_tables (keys cs) ≡ false
    pub nodes_apart : has_elem meta_nodes (keys cs) ≡ false
    pub version_apart : has_elem meta_version (keys cs) ≡ false

  not_marked :
      (k : String) (cs : List (String × Bool)) → has_elem k (keys cs) ≡ false → marks k cs ≡ false
  not_marked k [] h = refl
  not_marked k ((j, c) ∷ cs) h = ground (arith, h, not_marked k cs)

  abbrev pub HasTables : Taken → fl.State → Type 0
  HasTables t st =
      (k : String)
      → marks k t.snap.table_changed ≡ true
      → is_some (lookup k t.snap.tables) ≡ true
      → Has t.snap.tables st k

  -- Floyd has this message under the key.
  abbrev pub HasText : String → Option String → fl.State → Type 0
  HasText key o st = (v : String) × (o ≡ some v) × (fl.read st key ≡ (ok, v))

  abbrev pub HasNames : Taken → fl.State → fl.State → Type 0
  HasNames t start st =
      (written fm pb fl t.snap start).changed ≡ true
      → HasText meta_tables (pb.serialize_names (written fm pb fl t.snap start).names) st

  abbrev pub HasNodes : Taken → fl.State → Type 0
  HasNodes t st =
      t.snap.node_changed ≡ true → HasText meta_nodes (serialized fm pb fl t.snap.nodes) st

  -- From the floyd at `start`, all that a snapshot changes but for the epoch is in floyd.
  pub record Complete (t : Taken) (start st : fl.State) : Type 0 where
    pub has_tables : HasTables t st
    pub has_names : HasNames t start st
    pub has_nodes : HasNodes t st

  marks-apart :
      (key k : String) (cs : List (String × Bool))
      → marks key cs ≡ false
      → marks k cs ≡ true
      → str_eq key k ≡ false
  marks-apart key k cs a m = elim (Bool-cases (str_eq key k)) [
    | inl same ↦
        absurd
          (ground (arith, m, subst (λ (x : String). marks x cs ≡ false) ((eq_iff key k).0 same) a))
    | inr other ↦ other
  ]

  put_text-other :
      (key j : String) (o : Option String) (st : fl.State)
      → str_eq key j ≡ false
      → fl.read (put_text fm pb fl key o st).1 j ≡ fl.read st j
  put_text-other key j none st a = refl
  put_text-other key j (some v) st a = laws.read-write_other st j key v a

  put_text-HasText :
      (key : String) (o : Option String) (st : fl.State)
      → (put_text fm pb fl key o st).0 ≡ ok
      → HasText key o (put_text fm pb fl key o st).1
  put_text-HasText key none st e = absurd (ground (arith, e))
  put_text-HasText key (some v) st e = elim (Bool-cases (is_ok (fl.write st key v).0)) [
    | inl h ↦ (v, refl, laws.read-write st key v (ok_of (fl.write st key v).0 h))
    | inr h ↦ absurd (ground (arith, h, e))
  ]

  -- One that reads the same under the tables' names has the same tables.
  HasTables-same :
      (t : Taken) (st st' : fl.State) (key : String)
      → marks key t.snap.table_changed ≡ false
      → ((j : String) → str_eq key j ≡ false → fl.read st' j ≡ fl.read st j)
      → HasTables t st
      → HasTables t st'
  HasTables-same t st st' key a same h k m i =
      let o = h k m i in
      record {
        table = o.table;
        text = o.text;
        is_table = o.is_table;
        is_text = o.is_text;
        is_read = same k (marks-apart key k t.snap.table_changed a m) ∙ o.is_read;
      }

  HasText-same :
      (key : String) (o : Option String) (st st' : fl.State)
      → fl.read st' key ≡ fl.read st key
      → HasText key o st
      → HasText key o st'
  HasText-same key o st st' same (v, e, r) = (v, e, same ∙ r)

  and_then-either :
      (P : Status × fl.State → Type 0) (x : Status × fl.State) (f : fl.State → Status × fl.State)
      → (is_ok (x.0) ≡ false → P x)
      → (x.0 ≡ ok → P (f (x.1)))
      → P (and_then fm pb fl x f)
  and_then-either P x f fails goes = elim (Bool-cases (is_ok (x.0))) [
    | inl h ↦ rw h (goes (ok_of (x.0) h))
    | inr h ↦ rw h (fails h)
  ]

  -- A stage leaves the other keys.
  put_names-other :
      (changed : Bool) (names : List String) (st : fl.State) (j : String)
      → str_eq meta_tables j ≡ false
      → fl.read (put_names fm pb fl changed names st).1 j ≡ fl.read st j
  unfolding put_names
  put_names-other true names st j a = put_text-other meta_tables j (pb.serialize_names names) st a
  put_names-other false names st j a = refl

  put_nodes-other :
      (s : Snapshot) (st : fl.State) (j : String)
      → str_eq meta_nodes j ≡ false
      → fl.read (put_nodes fm pb fl s st).1 j ≡ fl.read st j
  unfolding put_nodes
  put_nodes-other s st j a = elim (Bool-cases s.node_changed) [
    | inl h ↦ rw (put_nodes, h) (put_text-other meta_nodes j (serialized fm pb fl s.nodes) st a)
    | inr h ↦ rw (put_nodes, h)
  ]

  put_version-other :
      (changed : Bool) (e : ℤ) (st : fl.State) (j : String)
      → str_eq meta_version j ≡ false
      → fl.read (put_version fm pb fl changed e st).1 j ≡ fl.read st j
  unfolding put_version
  put_version-other true e st j a =
      put_text-other meta_version j (some (pb.to_string (int_suc e))) st a
  put_version-other false e st j a = refl

  put_members-same :
      (s : Snapshot) (st : fl.State) (j : String)
      → fl.read (put_members fm pb fl s st).1 j ≡ fl.read st j
  unfolding put_members
  put_members-same s st j = same s.members_change refl
    where
      same :
          (ms : List (String × Bool))
          → s.members_change ≡ ms
          → fl.read (put_members fm pb fl s st).1 j ≡ fl.read st j
      same [] e = rw (put_members, e)
      same ((n, b) ∷ ms) e = rw (put_members, e) (laws.read-change_server st n b j)

  -- The writes ended before that of the epoch, or all of them were made.
  abbrev pub Outcome : Taken → fl.State → Status × fl.State → Type 0
  Outcome t st x =
      ((is_ok (x.0) ≡ false) × (fl.read (x.1) meta_version ≡ fl.read st meta_version))
      ⊎ (Complete t st (x.1)
          × (x.0 ≡ ok
              → epoch_change fm pb fl t.snap (written fm pb fl t.snap st) ≡ true
              → fl.read (x.1) meta_version ≡ (ok, pb.to_string (int_suc t.snap_epoch))))

  put_names-HasNames :
      (t : Taken) (start st : fl.State)
      → (put_names fm pb fl
          (written fm pb fl t.snap start).changed
          (written fm pb fl t.snap start).names
          st).0
        ≡ ok
      → HasNames t start
          (put_names fm pb fl
            (written fm pb fl t.snap start).changed
            (written fm pb fl t.snap start).names
            st).1
  unfolding put_names
  put_names-HasNames t start st e h =
      let w = written fm pb fl t.snap start in
      rw (put_names, h)
        (put_text-HasText meta_tables (pb.serialize_names w.names) st (rw (put_names, h) at e))

  put_nodes-HasNodes :
      (t : Taken) (st : fl.State)
      → (put_nodes fm pb fl t.snap st).0 ≡ ok
      → HasNodes t (put_nodes fm pb fl t.snap st).1
  unfolding put_nodes
  put_nodes-HasNodes t st e h =
      rw (put_nodes, h)
        (put_text-HasText meta_nodes (serialized fm pb fl t.snap.nodes) st (rw (put_nodes, h) at e))

  put_version-Outcome :
      (t : Taken) (start st : fl.State)
      → IsApart t.snap.table_changed
      → Complete t start st
      → Outcome t start (
          put_version fm pb fl
            (epoch_change fm pb fl t.snap (written fm pb fl t.snap start))
            t.snap_epoch
            st)
  unfolding put_version
  put_version-Outcome t start st apart c =
      let changed = epoch_change fm pb fl t.snap (written fm pb fl t.snap start) in
      let text = some (pb.to_string (int_suc t.snap_epoch)) in
      let st' = (put_version fm pb fl changed t.snap_epoch st).1 in
      let same = put_version-other changed t.snap_epoch st in
      inr (
        record {
          has_tables =
              HasTables-same t st st' meta_version
                (not_marked meta_version t.snap.table_changed apart.version_apart) same
                c.has_tables;
          has_names = λ h.
              HasText-same meta_tables (pb.serialize_names (written fm pb fl t.snap start).names) st
                st' (same meta_tables refl) (c.has_names h);
          has_nodes = λ h.
              HasText-same meta_nodes (serialized fm pb fl t.snap.nodes) st st'
                (same meta_nodes refl) (c.has_nodes h);
        },
        λ e h.
            let (v, is_v, is_read) =
              put_text-HasText meta_version text st (rw (put_version, h) at e) in
            rw (put_version, h) (is_read ∙ ap (λ (x : String). (ok, x)) (sym (of_some is_v))),
      )

  pub write_back-Outcome :
      (t : Taken) (st : fl.State)
      → IsApart t.snap.table_changed
      → Outcome t st (write_back fm pb fl t st)
  unfolding write_back
  write_back-Outcome t st apart =
      let w = written fm pb fl t.snap st in
      let o = write_tables-Writes t.snap.tables t.snap.table_changed st [] false in
      let v1 =
        o.others meta_version (not_marked meta_version t.snap.table_changed apart.version_apart) in
      let P = Outcome t st in
      and_then-either P (w.status, w.state)
        (λ st1. and_then fm pb fl (put_names fm pb fl w.changed w.names st1) (λ st2.
          and_then fm pb fl (put_nodes fm pb fl t.snap st2) (λ st3.
            and_then fm pb fl (put_members fm pb fl t.snap st3)
              (put_version fm pb fl (epoch_change fm pb fl t.snap w) t.snap_epoch))))
        (λ h. inl (h, v1))
        (λ e1.
          let st2 = (put_names fm pb fl w.changed w.names w.state).1 in
          let o2 = put_names-other w.changed w.names w.state in
          let v2 = o2 meta_version refl ∙ v1 in
          let t2 =
            HasTables-same t w.state st2 meta_tables
              (not_marked meta_tables t.snap.table_changed apart.tables_apart) o2 (o.makes e1) in
          and_then-either P (put_names fm pb fl w.changed w.names w.state)
            (λ st2. and_then fm pb fl (put_nodes fm pb fl t.snap st2) (λ st3.
              and_then fm pb fl (put_members fm pb fl t.snap st3)
                (put_version fm pb fl (epoch_change fm pb fl t.snap w) t.snap_epoch)))
            (λ h. inl (h, v2))
            (λ e2.
              let st3 = (put_nodes fm pb fl t.snap st2).1 in
              let o3 = put_nodes-other t.snap st2 in
              let v3 = o3 meta_version refl ∙ v2 in
              and_then-either P (put_nodes fm pb fl t.snap st2)
                (λ st3.
                  and_then fm pb fl (put_members fm pb fl t.snap st3)
                    (put_version fm pb fl (epoch_change fm pb fl t.snap w) t.snap_epoch))
                (λ h. inl (h, v3))
                (λ e3.
                  let st4 = (put_members fm pb fl t.snap st3).1 in
                  let o4 = put_members-same t.snap st3 in
                  and_then-either P (put_members fm pb fl t.snap st3)
                    (put_version fm pb fl (epoch_change fm pb fl t.snap w) t.snap_epoch)
                    (λ h. inl (h, o4 meta_version ∙ v3))
                    (λ e4. put_version-Outcome t st st4 apart (record {
                      has_tables =
                          HasTables-same t st3 st4 meta_nodes
                            (not_marked meta_nodes t.snap.table_changed apart.nodes_apart)
                            (λ j a. o4 j)
                            (HasTables-same t st2 st3 meta_nodes
                              (not_marked meta_nodes t.snap.table_changed apart.nodes_apart) o3 t2);
                      has_names = λ h.
                          HasText-same meta_tables (pb.serialize_names w.names) st2 st4
                            (o4 meta_tables ∙ o3 meta_tables refl)
                            (put_names-HasNames t st w.state e2 h);
                      has_nodes = λ h.
                          HasText-same meta_nodes (serialized fm pb fl t.snap.nodes) st3 st4
                            (o4 meta_nodes) (put_nodes-HasNodes t st2 e3 h);
                    })))))

  -- Apply leaves a key of floyd that is not one of the meta servers' and that the snapshot does not
  -- mark.
  pub write_back-other :
      (t : Taken) (st : fl.State) (j : String)
      → marks j t.snap.table_changed ≡ false
      → str_eq meta_tables j ≡ false
      → str_eq meta_nodes j ≡ false
      → str_eq meta_version j ≡ false
      → fl.read (write_back fm pb fl t st).1 j ≡ fl.read st j
  unfolding write_back
  write_back-other t st j m a b c =
      let w = written fm pb fl t.snap st in
      let o1 = (write_tables-Writes t.snap.tables t.snap.table_changed st [] false).others j m in
      let P = λ (x : Status × fl.State). fl.read (x.1) j ≡ fl.read st j in
      let changed = epoch_change fm pb fl t.snap w in
      let f4 = put_version fm pb fl changed t.snap_epoch in
      let f3 = λ (st3 : fl.State). and_then fm pb fl (put_members fm pb fl t.snap st3) f4 in
      let f2 = λ (st2 : fl.State). and_then fm pb fl (put_nodes fm pb fl t.snap st2) f3 in
      let f1 =
        λ (st1 : fl.State). and_then fm pb fl (put_names fm pb fl w.changed w.names st1) f2 in
      let o2 = put_names-other w.changed w.names w.state j a ∙ o1 in
      let st2 = (put_names fm pb fl w.changed w.names w.state).1 in
      let o3 = put_nodes-other t.snap st2 j b ∙ o2 in
      let st3 = (put_nodes fm pb fl t.snap st2).1 in
      let o4 = put_members-same t.snap st3 j ∙ o3 in
      let st4 = (put_members fm pb fl t.snap st3).1 in
      and_then-either P (w.status, w.state) f1 (λ h. o1)
        (λ e1.
          and_then-either P (put_names fm pb fl w.changed w.names w.state) f2 (λ h. o2)
            (λ e2.
              and_then-either P (put_nodes fm pb fl t.snap st2) f3 (λ h. o3)
                (λ e3.
                  and_then-either P (put_members fm pb fl t.snap st3) f4 (λ h. o4)
                    (λ e4. put_version-other changed t.snap_epoch st4 j c ∙ o4))))
