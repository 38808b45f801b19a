-- ===== src/Meta/Store/Apply/Refreshes.antt =====
-- Apply of src/meta/zp_meta_info_store.cc: the server's own copy after it.
use Prim.Native.String.{String}
use text.Mathlib.Text.{◌==◌ as str_eq}
use text.Mathlib.TextEquality.{eq_iff}
use zeppelin.Base.{
  ℕ, ◌≡◌, refl, sym, ap, ◌∙◌, subst, inl, inr, Bool, true, false, ◌&&◌, ◌||◌, Option, none, some,
  List, [], if◌then◌else◌, arith, Bool-cases, of_some,
}
use zeppelin.Base.Int.{ℤ, pos, negsuc, int_suc, int_eq, int_lt}
use zeppelin.Base.Assoc.{lookup}
use zeppelin.Base.Sets.{has_elem, keys, is_some}
use zeppelin.Env.{Status, ok, is_ok}
use zeppelin.Meta.Data.{Node, Table, Formats}
use zeppelin.Meta.Store.{
  Floyds, Protos, Store, meta_tables, meta_nodes, meta_version, refresh, read_epoch, load_members,
  load_meta_info, then_load, with_epoch, refresh_node_infos,
}
use zeppelin.Meta.Store.Loads.{stored, load_meta_info-tables}
use zeppelin.Meta.Store.Apply.{
  Taken, epoch_change, written, write_back, apply, then_nodes, has_members,
}
use zeppelin.Meta.Store.Apply.Orders.{
  FloydLaws, marks, IsApart, Complete, Outcome, write_back-Outcome, write_back-other,
  write_tables-Writes, ok_of,
}

-- What was serialized is parsed back.
pub record ProtoLaws (pb : Protos) : Type 0 where
  pub parse-serialize_names :
      (ns : List String) (v : String) → pb.serialize_names ns ≡ some v → pb.parse_names v ≡ some ns
  pub parse-serialize_table :
      (t : Table) (v : String) → pb.serialize_table t ≡ some v → pb.parse_table v ≡ some t
  pub stoi-to_string : (e : ℤ) → pb.stoi (pb.to_string e) ≡ some e

pub apart_from :
    (key k : String) (ks : List String)
    → has_elem key ks ≡ false
    → has_elem k ks ≡ true
    → str_eq key k ≡ false
apart_from key k ks a h = elim (Bool-cases (str_eq key k)) [
  | inl same ↦
      absurd
        (ground (arith, h, subst (λ (x : String). has_elem x ks ≡ false) ((eq_iff key k).0 same) a))
  | inr other ↦ other
]

pick :
    (a b : Bool) (x o : Option Table)
    → a ≡ (b && is_some o)
    → (b ≡ true → is_some o ≡ true → x ≡ o)
    → (if a then x else none) ≡ (if b then o else none)
pick a false x o e h = rw e
pick a true x none e h = rw e
pick a true x (some t) e h = rw e (h refl refl)

int_eq-suc : (e : ℤ) → int_eq (int_suc e) e ≡ false
int_eq-suc (pos n) = ground arith
int_eq-suc (negsuc n) = ground arith

int_of_eq : (a b : ℤ) → int_eq a b ≡ true → a ≡ b
int_of_eq (pos n) (pos m) h = ap pos (ground (arith, h))
int_of_eq (pos n) (negsuc m) h = absurd (ground (arith, h))
int_of_eq (negsuc n) (pos m) h = absurd (ground (arith, h))
int_of_eq (negsuc n) (negsuc m) h = ap negsuc (ground (arith, h))

module _ (fm : Formats) (pb : Protos) (fl : Floyds) where
  with_epoch-ok :
      (e : ℤ) (x : Status × Store) (s' : Store)
      → with_epoch fm pb fl e x ≡ (ok, s')
      → (x ≡ (ok, x.1)) × (s'.table_info ≡ x.1.table_info) × (s'.epoch ≡ e)
  with_epoch-ok e (Status.ok, s) s' h = (
    refl,
    ap (λ (x : Status × Store). x.1.table_info) (sym h),
    ap (λ (x : Status × Store). x.1.epoch) (sym h),
  )
  with_epoch-ok e (Status.not_found, s) s' h = absurd (ground (arith, h))
  with_epoch-ok e (Status.corruption, s) s' h = absurd (ground (arith, h))
  with_epoch-ok e (Status.invalid_argument, s) s' h = absurd (ground (arith, h))
  with_epoch-ok e (Status.io_error, s) s' h = absurd (ground (arith, h))
  with_epoch-ok e (Status.end_file, s) s' h = absurd (ground (arith, h))
  with_epoch-ok e (Status.incomplete, s) s' h = absurd (ground (arith, h))
  with_epoch-ok e (Status.complete, s) s' h = absurd (ground (arith, h))

  then_load-ok :
      (st : fl.State) (e : ℤ) (o : Option (Status × Store)) (s' : Store)
      → then_load fm pb fl st e o ≡ some (ok, s')
      → (s : Store) × (s3 : Store) × (load_meta_info fm pb fl st s ≡ (ok, s3))
        × (s'.table_info ≡ s3.table_info)
        × (s'.epoch ≡ e)
  then_load-ok st e none s' h = absurd (ground (arith, h))
  then_load-ok st e (some (Status.ok, s)) s' h =
      let (a, b, c) = with_epoch-ok e (load_meta_info fm pb fl st s) s' (of_some h) in
      (s, (load_meta_info fm pb fl st s).1, a, b, c)
  then_load-ok st e (some (Status.not_found, s)) s' h = absurd (ground (arith, of_some h))
  then_load-ok st e (some (Status.corruption, s)) s' h = absurd (ground (arith, of_some h))
  then_load-ok st e (some (Status.invalid_argument, s)) s' h = absurd (ground (arith, of_some h))
  then_load-ok st e (some (Status.io_error, s)) s' h = absurd (ground (arith, of_some h))
  then_load-ok st e (some (Status.end_file, s)) s' h = absurd (ground (arith, of_some h))
  then_load-ok st e (some (Status.incomplete, s)) s' h = absurd (ground (arith, of_some h))
  then_load-ok st e (some (Status.complete, s)) s' h = absurd (ground (arith, of_some h))

  -- A refresh at the next epoch loads the tables.
  refresh-next :
      (mine : Node) (st : fl.State) (s s' : Store) (e : ℤ)
      → read_epoch fm pb fl st ≡ some (ok, int_suc e)
      → s.epoch ≡ e
      → refresh fm pb fl mine st s ≡ some (ok, s')
      → (s2 : Store) × (s3 : Store) × (load_meta_info fm pb fl st s2 ≡ (ok, s3))
        × (s'.table_info ≡ s3.table_info)
        × (s'.epoch ≡ int_suc e)
  unfolding refresh
  refresh-next mine st s s' e now at h =
      let apart = subst (λ (z : ℤ). int_eq (int_suc e) z ≡ false) (sym at) (int_eq-suc e) in
      elim (Bool-cases (int_lt (int_suc e) s.epoch)) [
        | inl l ↦ absurd (ground (arith, rw (refresh, now, apart, l) at h))
        | inr l ↦
            then_load-ok st (int_suc e) (load_members fm pb fl mine st s) s'
              (rw (refresh, now, apart, l) at h)
      ]

  -- RefreshNodeInfos leaves the tables and the epoch.
  refresh_node_infos-tables :
      (now : ℕ) (st : fl.State) (s : Store)
      → ((refresh_node_infos fm pb fl now st s).1.table_info ≡ s.table_info)
        × ((refresh_node_infos fm pb fl now st s).1.epoch ≡ s.epoch)
  unfolding refresh_node_infos
  refresh_node_infos-tables now st s = (ground arith, ground arith)

  then_nodes-ok :
      (node_changed : Bool) (now : ℕ) (st st' : fl.State) (o : Option (Status × Store)) (s' : Store)
      → then_nodes fm pb fl node_changed now st o ≡ some (ok, st', s')
      → (s1 : Store) × (o ≡ some (ok, s1))
        × (st ≡ st')
        × (s'.table_info ≡ s1.table_info)
        × (s'.epoch ≡ s1.epoch)
  then_nodes-ok node_changed now st st' none s' h = absurd (ground (arith, h))
  then_nodes-ok node_changed now st st' (some (r, s1)) s' h =
      let x = refresh_node_infos fm pb fl now st s1 in
      let (tables, epoch) = refresh_node_infos-tables now st s1 in
      elim (Bool-cases (is_ok r)) [
        | inr f ↦
            let e = of_some (rw f at h) in
            absurd (ground (arith, f, ap (λ (y : Status × fl.State × Store). is_ok (y.0)) e))
        | inl f ↦ elim (Bool-cases node_changed) [
          | inl c ↦
              let e = of_some (rw (f, c) at h) in
              (
                s1,
                ap (λ (z : Status). some (z, s1)) (ok_of r f),
                ap (λ (y : Status × fl.State × Store). y.1) e,
                ap (λ (y : Status × fl.State × Store). y.2.table_info) (sym e) ∙ tables,
                ap (λ (y : Status × fl.State × Store). y.2.epoch) (sym e) ∙ epoch,
              )
          | inr c ↦
              let e = of_some (rw (f, c) at h) in
              (
                s1,
                ap (λ (z : Status). some (z, s1)) (ok_of r f),
                ap (λ (y : Status × fl.State × Store). y.1) e,
                ap (λ (y : Status × fl.State × Store). y.2.table_info) (sym e),
                ap (λ (y : Status × fl.State × Store). y.2.epoch) (sym e),
              )
        ]
      ]

  apply-ok :
      (mine : Node) (now : ℕ) (t : Taken) (st st' : fl.State) (s s' : Store)
      → apply fm pb fl mine now t st s ≡ some (ok, st', s')
      → epoch_change fm pb fl t.snap (written fm pb fl t.snap st) ≡ true
      → (s.epoch ≡ t.snap_epoch)
        × (write_back fm pb fl t st ≡ (ok, st'))
        × ((s1 : Store) × (refresh fm pb fl mine st' s ≡ some (ok, s1))
            × (s'.table_info ≡ s1.table_info)
            × (s'.epoch ≡ s1.epoch))
  unfolding apply
  apply-ok mine now t st st' s s' h changed =
      let w = write_back fm pb fl t st in
      elim (Bool-cases (int_eq s.epoch t.snap_epoch)) [
        | inr f ↦ absurd (
            ground (
              arith,
              ap (λ (y : Status × fl.State × Store). is_ok (y.0)) (of_some (rw (apply, f) at h)),
            ))
        | inl f ↦ elim (Bool-cases (is_ok (w.0))) [
          | inr g ↦ absurd (
              ground (
                arith,
                g,
                ap (λ (y : Status × fl.State × Store). is_ok (y.0))
                    (of_some (rw (apply, f, g) at h)),
              ))
          | inl g ↦
              let (s1, r, same, tables, epoch) =
                then_nodes-ok t.snap.node_changed now (w.1) st' (refresh fm pb fl mine (w.1) s) s'
                  (rw (apply, f, g, changed) at h) in
              (
                int_of_eq s.epoch t.snap_epoch f,
                ap (λ (z : Status). (z, w.1)) (ok_of (w.0) g) ∙ ap (λ (z : fl.State). (ok, z)) same,
                (
                  s1,
                  subst (λ (z : fl.State). refresh fm pb fl mine z s ≡ some (ok, s1)) same r,
                  tables,
                  epoch,
                ),
              )
        ]
      ]

  wrote-status :
      (t : Taken) (st st' : fl.State)
      → write_back fm pb fl t st ≡ (ok, st')
      → (written fm pb fl t.snap st).status ≡ ok
  unfolding write_back
  wrote-status t st st' e =
      let w = written fm pb fl t.snap st in
      elim (Bool-cases (is_ok w.status)) [
        | inl h ↦ ok_of w.status h
        | inr h ↦ absurd (
            ground
              (arith, h, ap (λ (x : Status × fl.State). is_ok (x.0)) (rw (write_back, h) at e)))
      ]

  module _ (laws : FloydLaws fl) (codec : ProtoLaws pb) where
    -- What floyd has under the name of a table in the list, after the writes.
    stored-written :
        (t : Taken) (st st' : fl.State) (name : String)
        → IsApart fm pb fl laws t.snap.table_changed
        → Complete fm pb fl laws t st st'
        → write_back fm pb fl t st ≡ (ok, st')
        → (marks name t.snap.table_changed ≡ false
            → stored fm pb fl st name ≡ lookup name t.snap.tables)
        → has_elem name (keys t.snap.table_changed) ≡ true
        → is_some (lookup name t.snap.tables) ≡ true
        → stored fm pb fl st' name ≡ lookup name t.snap.tables
    stored-written t st st' name apart c e synced here there =
        elim (Bool-cases (marks name t.snap.table_changed)) [
          | inl m ↦
              let h = c.has_tables name m there in
              ap (λ (x : Status × String). pb.parse_table x.1) h.is_read
              ∙ (codec.parse-serialize_table h.table h.text h.is_text ∙ sym h.is_table)
          | inr m ↦
              let same =
                write_back-other fm pb fl laws t st name m
                  (apart_from meta_tables name (keys t.snap.table_changed) apart.tables_apart here)
                  (apart_from meta_nodes name (keys t.snap.table_changed) apart.nodes_apart here)
                  (apart_from meta_version name (keys t.snap.table_changed) apart.version_apart
                    here) in
              ap (λ (x : Status × String). pb.parse_table x.1)
                (ap (λ (x : Status × fl.State). fl.read x.1 name) (sym e) ∙ same)
              ∙ synced m
        ]

    wrote-Complete :
        (t : Taken) (st st' : fl.State)
        → IsApart fm pb fl laws t.snap.table_changed
        → write_back fm pb fl t st ≡ (ok, st')
        → Complete fm pb fl laws t st st'
          × (epoch_change fm pb fl t.snap (written fm pb fl t.snap st) ≡ true
              → fl.read st' meta_version ≡ (ok, pb.to_string (int_suc t.snap_epoch)))
    wrote-Complete t st st' apart e =
        elim (subst (Outcome fm pb fl laws t st) e (write_back-Outcome fm pb fl laws t st apart)) [
          | inl (f, v) ↦ absurd (ground (arith, f))
          | inr (c, version) ↦ (c, version refl)
        ]

    read_epoch-next :
        (st : fl.State) (e : ℤ)
        → fl.read st meta_version ≡ (ok, pb.to_string (int_suc e))
        → read_epoch fm pb fl st ≡ some (ok, int_suc e)
    unfolding read_epoch
    read_epoch-next st e h = rw (
      read_epoch,
      ap (λ (x : Status × String). x.0) h,
      ap (λ (x : Status × String). x.1) h,
      codec.stoi-to_string (int_suc e),
    )

    pub apply-tables :
        (mine : Node) (now : ℕ) (t : Taken) (st st' : fl.State) (s s' : Store)
        → IsApart fm pb fl laws t.snap.table_changed
        → ((name : String)
            → has_elem name (keys t.snap.table_changed) ≡ true
            → is_some (lookup name t.snap.tables) ≡ true
            → marks name t.snap.table_changed ≡ false
            → stored fm pb fl st name ≡ lookup name t.snap.tables)
        → (written fm pb fl t.snap st).changed ≡ true
        → apply fm pb fl mine now t st s ≡ some (ok, st', s')
        → ((name : String)
            → lookup name s'.table_info ≡ (
                if has_elem name (keys t.snap.table_changed)
                then lookup name t.snap.tables
                else none))
          × (s'.epoch ≡ int_suc t.snap_epoch)
          × (fl.read st' meta_version ≡ (ok, pb.to_string (int_suc t.snap_epoch)))
    unfolding epoch_change
    apply-tables mine now t st st' s s' apart synced changed e =
        let w = written fm pb fl t.snap st in
        let epoch_changes : epoch_change fm pb fl t.snap w ≡ true =
          ap (λ (b : Bool). b || has_members fm pb fl t.snap) changed in
        let (at_epoch, wrote, (s1, refreshed, tables, epoch)) =
          apply-ok mine now t st st' s s' e epoch_changes in
        let (c, version) = wrote-Complete t st st' apart wrote in
        let next = version epoch_changes in
        let (text, is_text, is_read) = c.has_names changed in
        let (s2, s3, loads, same, moved) =
          refresh-next mine st' s s1 t.snap_epoch (read_epoch-next st' t.snap_epoch next) at_epoch
            refreshed in
        let (info, charges) =
          load_meta_info-tables fm pb fl st' s2 s3 w.names
            (ap (λ (x : Status × String). x.0) is_read)
            (ap (λ (x : Status × String). pb.parse_names x.1) is_read
              ∙ codec.parse-serialize_names w.names text is_text)
            loads in
        (
          λ name.
              subst
                (λ (m : List (String × Table)). lookup name m ≡ (
                  if has_elem name (keys t.snap.table_changed)
                  then lookup name t.snap.tables
                  else none))
                (sym (tables ∙ same))
                (info name
                  ∙ pick (has_elem name w.names) (has_elem name (keys t.snap.table_changed))
                      (stored fm pb fl st' name) (lookup name t.snap.tables)
                      ((write_tables-Writes fm pb fl laws t.snap.tables t.snap.table_changed st []
                          false).lists
                        (wrote-status t st st' wrote) name)
                      (λ here there.
                        stored-written t st st' name apart c wrote (synced name here there) here
                          there)),
          epoch ∙ moved,
          next,
        )
