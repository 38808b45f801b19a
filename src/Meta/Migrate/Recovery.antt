-- ===== src/Meta/Migrate/Recovery.antt =====
-- Init of class ZPMetaMigrateRegister, src/meta/zp_meta_migrate_register.cc, and Load on what it
-- wrote.
use Prim.Native.String.{String}
use text.Mathlib.Text.{◌==◌ as str_eq}
use text.Mathlib.TextEquality.{eq_iff}
use zeppelin.Base.{
  ℕ, ◌<◌, ◌≡◌, refl, sym, ap, ◌∙◌, subst, inl, inr, Bool, true, false, ◌||◌, some, List, [], ◌∷◌,
  ◌++◌, append-nil, append_assoc, length, if◌then◌else◌, arith, Bool-cases,
}
use zeppelin.Base.Int.{pos}
use zeppelin.Env.{Status, ok, corruption, is_ok}
use zeppelin.Meta.Migrate.{
  Head, Floyd, Register, head_key, has_key, add_key, exist, fresh, write_diffs, write_head,
  finish_init, init_migrate, read_diff, item_of, load_read, load_keys, load_head, load_migrate,
}

-- A floyd in which no write fails and a read finds what was written last, with messages that are
-- parsed back, and keys of diffs that are not that of the head.
pub record FloydLaws (fl : Floyd) : Type 1 where
  pub write_ok : (st : fl.Store) (k v : String) → (fl.write st k v).0 ≡ ok
  pub read-write :
      (st : fl.Store) (k v j : String)
      → fl.read (fl.write st k v).1 j ≡ (if str_eq k j then (ok, v) else fl.read st j)
  pub parse-serialize :
      (d : fl.Diff) → (v : String) × (fl.serialize d ≡ some v) × (fl.parse v ≡ some d)
  pub parse_head-serialize_head :
      (h : Head) → (v : String) × (fl.serialize_head h ≡ some v) × (fl.parse_head v ≡ some h)
  pub diff_key-ne : (d : fl.Diff) → str_eq head_key (fl.diff_key d) ≡ false

str_eq_refl : (k : String) → str_eq k k ≡ true
str_eq_refl k = (eq_iff k k).1 refl

str_eq_sym : (j k : String) → str_eq j k ≡ false → str_eq k j ≡ false
str_eq_sym j k h = ground (arith, eq_iff j k, eq_iff k j)

-- No key stands in the list twice.
abbrev Distinct : List String → Type 0
Distinct [] = Unit
Distinct (k ∷ ks) = (has_key k ks ≡ false) × Distinct ks

has_key-append :
    (k : String) (xs ys : List String) → has_key k (xs ++ ys) ≡ (has_key k xs || has_key k ys)
has_key-append k [] ys = refl
has_key-append k (x ∷ xs) ys = ground (arith, has_key-append k xs ys)

has_key-middle :
    (k : String) (acc ks : List String) → Distinct (acc ++ k ∷ ks) → has_key k acc ≡ false
has_key-middle k [] ks h = refl
has_key-middle k (a ∷ acc) ks (absent, h) =
    ground (arith, has_key-append a acc (k ∷ ks), str_eq_sym k a, has_key-middle k acc ks h)

Distinct-append :
    (k : String) (ks : List String) → has_key k ks ≡ false → Distinct ks → Distinct (ks ++ k ∷ [])
Distinct-append k [] h d = (refl, tt)
Distinct-append k (j ∷ ks) h (absent, d) = (
  ground (arith, has_key-append j ks (k ∷ []), str_eq_sym j k),
  Distinct-append k ks (ground (arith, h)) d,
)

Distinct-add_key : (k : String) (ks : List String) → Distinct ks → Distinct (add_key k ks)
unfolding add_key
Distinct-add_key k ks d = elim (Bool-cases (has_key k ks)) [
  | inl there ↦ rw there d
  | inr absent ↦ rw absent (Distinct-append k ks absent d)
]

module _ (fl : Floyd) (laws : FloydLaws fl) where
  open laws use {write_ok, read-write, parse-serialize, parse_head-serialize_head, diff_key-ne}

  record Readable (st : fl.Store) (k : String) : Type 0 where
    diff : fl.Diff
    found : read_diff fl st k ≡ (ok, some diff)
    not_head : str_eq head_key k ≡ false

  abbrev AllReadable : fl.Store → List String → Type 0
  AllReadable st [] = Unit
  AllReadable st (k ∷ ks) = Readable st k × AllReadable st ks

  item_of-parsed :
      (v : String) (d : fl.Diff) → fl.parse v ≡ some d → item_of fl (ok, v) ≡ (ok, some d)
  item_of-parsed v d e = rw e

  -- A key that was written with a diff.
  Readable-new :
      (st : fl.Store) (d : fl.Diff) (v k : String)
      → fl.parse v ≡ some d
      → str_eq (fl.diff_key d) k ≡ true
      → str_eq head_key k ≡ false
      → Readable (fl.write st (fl.diff_key d) v).1 k
  unfolding read_diff
  Readable-new st d v k parsed same other = record {
    diff = d;
    found =
        ap (item_of fl) (
          read-write st (fl.diff_key d) v k
          ∙ ap (λ (b : Bool). if b then (ok, v) else fl.read st k) same)
        ∙ item_of-parsed v d parsed;
    not_head = other;
  }

  -- A key that is not written.
  Readable-kept :
      (st : fl.Store) (j v k : String)
      → str_eq j k ≡ false
      → Readable st k
      → Readable (fl.write st j v).1 k
  unfolding read_diff
  Readable-kept st j v k differs x = record {
    diff = x.diff;
    found =
        ap (item_of fl)
          (read-write st j v k ∙ ap (λ (b : Bool). if b then (ok, v) else fl.read st k) differs)
        ∙ x.found;
    not_head = x.not_head;
  }

  AllReadable-write :
      (st : fl.Store) (d : fl.Diff) (v : String) (ks : List String)
      → fl.parse v ≡ some d
      → AllReadable st ks
      → AllReadable (fl.write st (fl.diff_key d) v).1 ks
  AllReadable-write st d v [] parsed all = tt
  AllReadable-write st d v (k ∷ ks) parsed (x, all) = (
    elim (Bool-cases (str_eq (fl.diff_key d) k)) [
      | inl same ↦ Readable-new st d v k parsed same x.not_head
      | inr differs ↦ Readable-kept st (fl.diff_key d) v k differs x
    ],
    AllReadable-write st d v ks parsed all,
  )

  AllReadable-head :
      (st : fl.Store) (v : String) (ks : List String)
      → AllReadable st ks
      → AllReadable (fl.write st head_key v).1 ks
  AllReadable-head st v [] all = tt
  AllReadable-head st v (k ∷ ks) (x, all) =
      (Readable-kept st head_key v k x.not_head x, AllReadable-head st v ks all)

  AllReadable-append :
      (st : fl.Store) (k : String) (ks : List String)
      → AllReadable st ks
      → Readable st k
      → AllReadable st (ks ++ k ∷ [])
  AllReadable-append st k [] all x = (x, tt)
  AllReadable-append st k (j ∷ ks) (y, all) x = (y, AllReadable-append st k ks all x)

  AllReadable-add_key :
      (st : fl.Store) (k : String) (ks : List String)
      → AllReadable st ks
      → Readable st k
      → AllReadable st (add_key k ks)
  unfolding add_key
  AllReadable-add_key st k ks all x = elim (Bool-cases (has_key k ks)) [
    | inl there ↦ rw there all
    | inr absent ↦ rw absent (AllReadable-append st k ks all x)
  ]

  -- The diffs of a register are in floyd, under distinct keys.
  record Stored (r : Register fl) (result : Status × Register fl) : Type 0 where
    st : fl.Store
    ks : List String
    returned : result ≡ (ok, record r { store = st; diff_keys = ks })
    readable : AllReadable st ks
    distinct : Distinct ks

  write_diffs-Stored :
      (r : Register fl) (ds : List fl.Diff)
      → AllReadable r.store r.diff_keys
      → Distinct r.diff_keys
      → Stored r (write_diffs fl r ds)
  unfolding write_diffs
  write_diffs-Stored r [] all distinct = record {
    st = r.store;
    ks = r.diff_keys;
    returned = refl;
    readable = all;
    distinct = distinct;
  }
  write_diffs-Stored r (d ∷ ds) all distinct =
      let (v, printed, parsed) = parse-serialize d in
      let k = fl.diff_key d in
      let st = (fl.write r.store k v).1 in
      let next =
        write_diffs-Stored (record r { store = st; diff_keys = add_key k r.diff_keys }) ds
          (AllReadable-add_key st k r.diff_keys
            (AllReadable-write r.store d v r.diff_keys parsed all)
            (Readable-new r.store d v k parsed (str_eq_refl k) (diff_key-ne d)))
          (Distinct-add_key k r.diff_keys distinct) in
      record {
        st = next.st;
        ks = next.ks;
        returned = rw (printed, write_ok r.store k v, write_diffs) next.returned;
        readable = next.readable;
        distinct = next.distinct;
      }

  load_keys-all :
      (r : Register fl) (ks : List String)
      → AllReadable r.store ks
      → Distinct (r.diff_keys ++ ks)
      → load_keys fl r ks ≡ (true, record r { diff_keys = r.diff_keys ++ ks })
  unfolding load_keys add_key
  load_keys-all r [] all distinct =
      ap (λ (l : List String). (true, record r { diff_keys = l })) (sym (append-nil r.diff_keys))
  load_keys-all r (k ∷ ks) (x, all) distinct =
      rw (x.found, load_keys, has_key-middle k r.diff_keys ks distinct)
        (load_keys-all (record r { diff_keys = r.diff_keys ++ k ∷ [] }) ks all
            (subst Distinct (sym (append_assoc r.diff_keys (k ∷ []) ks)) distinct)
          ∙ ap (λ (l : List String). (true, record r { diff_keys = l }))
              (append_assoc r.diff_keys (k ∷ []) ks))

  write_head-written :
      (st : fl.Store) (h : Head) (v : String)
      → fl.serialize_head h ≡ some v
      → write_head fl st h ≡ (ok, (fl.write st head_key v).1)
  unfolding write_head
  write_head-written st h v e =
      rw (e, write_head)
        (ap (λ (s : Status). (s, (fl.write st head_key v).1)) (write_ok st head_key v))

  finish_init-written :
      (now : ℕ) (q : Register fl) (v : String)
      → fl.serialize_head
          (record { begin_time = now; init_size = length q.diff_keys; diff_names = q.diff_keys })
        ≡ some v
      → finish_init fl now (ok, q) ≡ (
        ok,
        record q {
          store = (fl.write q.store head_key v).1;
          total_size = length q.diff_keys;
          ctime = now;
        },
      )
  unfolding finish_init
  finish_init-written now q v e =
      ap
        (λ (x : Status × fl.Store). (
          x.0,
          record q {
            store = x.1;
            total_size = length q.diff_keys;
            ctime = if is_ok x.0 then now else q.ctime;
          },
        ))
        (write_head-written q.store _ v e)

  load_read-parsed :
      (r : Register fl) (v : String) (h : Head)
      → fl.parse_head v ≡ some h
      → load_read fl r (ok, v) ≡ load_head fl r h
  load_read-parsed r v h e = rw e

  -- A newly constructed register that registers at least one diff at a time other than 0, over a
  -- floyd in which no write fails, returns OK. It then has a migration, and a new register that loads from the same floyd
  -- returns OK and is equal to it.
  pub init_migrate-load_migrate :
      (now : ℕ) (st : fl.Store) (d : fl.Diff) (ds : List fl.Diff)
      → 0 < now
      → (r : Register fl) × (init_migrate fl now (fresh fl st) (d ∷ ds) ≡ (ok, r))
        × (exist fl r ≡ true)
        × (load_migrate fl (fresh fl r.store) ≡ (ok, r))
  unfolding init_migrate load_migrate load_head
  init_migrate-load_migrate now st d ds h =
      let e = write_diffs-Stored (fresh fl st) (d ∷ ds) tt tt in
      let head : Head = record { begin_time = now; init_size = length e.ks; diff_names = e.ks } in
      let (v, printed, parsed) = parse_head-serialize_head head in
      let st' = (fl.write e.st head_key v).1 in
      let r : Register fl = record {
        ctime = now;
        total_size = length e.ks;
        refer = pos 0;
        diff_keys = e.ks;
        store = st';
      } in
      let loaded =
        load_keys-all (record (fresh fl st') { total_size = length e.ks }) e.ks
          (AllReadable-head e.st v e.ks e.readable) e.distinct in
      (
        r,
        ap (finish_init fl now) e.returned
            ∙ finish_init-written now (record (fresh fl st) { store = e.st; diff_keys = e.ks }) v
                printed,
        ground arith,
        ap (load_read fl (fresh fl st')) (
              read-write e.st head_key v head_key
              ∙ ap (λ (b : Bool). if b then (ok, v) else fl.read e.st head_key)
                  (str_eq_refl head_key))
            ∙ load_read-parsed (fresh fl st') v head parsed
            ∙ ap
                (λ (x : Bool × Register fl).
                  if x.0
                  then (ok, record x.1 { ctime = now; refer = pos 0 })
                  else (corruption, x.1))
                loaded,
      )
