-- ===== src/Meta/Migrate.antt =====
-- class ZPMetaMigrateRegister of src/meta/zp_meta_migrate_register.cc: the migration in progress, in
-- memory and in floyd. Floyd and the messages of protobuf are parameters; the lock is left out.
-- diff_keys_ is a list in some order of the set.
pub mod Recovery
use Prim.Native.String.{String}
use text.Mathlib.Text.{◌==◌ as str_eq}
use zeppelin.Base.{
  ℕ, zero, suc, ◌+◌, ◌-◌, ◌*◌, ◌/◌, ◌%◌, ◌^◌, ◌≡◌, Bool, true, false, ◌||◌, not, Option, none, some,
  List, [], ◌∷◌, ◌++◌, length, ltb, leb, ◌==◌, if◌then◌else◌,
}
use zeppelin.Base.Int.{ℤ, pos, sub, is_positive}
use zeppelin.Env.{Status, ok, is_ok, not_found, corruption, invalid_argument, complete, incomplete}

pub record Head : Type 0 where
  pub begin_time : ℕ
  pub init_size : ℕ
  pub diff_names : List String

-- floyd::Floyd, and the messages RelationCmdUnit, with its DiffKey, and MigrateHead.
pub record Floyd : Type 1 where
  pub Store : Type 0
  pub write : Store → String → String → Status × Store
  pub read : Store → String → Status × String
  pub delete : Store → String → Status × Store
  pub Diff : Type 0
  pub diff_key : Diff → String
  pub serialize : Diff → Option String
  pub parse : String → Option Diff
  pub serialize_head : Head → Option String
  pub parse_head : String → Option Head

abbrev pub head_key : String
head_key = "##migrate"

abbrev pub has_key : String → List String → Bool
has_key k [] = false
has_key k (j ∷ ks) = str_eq j k || has_key k ks

-- insert and erase of std::unordered_set
unfoldable pub add_key : String → List String → List String
add_key k ks = if has_key k ks then ks else ks ++ k ∷ []

abbrev pub drop_key : String → List String → List String
drop_key k [] = []
drop_key k (j ∷ ks) = if str_eq j k then drop_key k ks else j ∷ drop_key k ks

pub record Register (fl : Floyd) : Type 0 where
  pub ctime : ℕ
  pub total_size : ℕ
  pub refer : ℤ
  pub diff_keys : List String
  pub store : fl.Store

abbrev pub is_not_found : Status → Bool
is_not_found Status.not_found = true
is_not_found _ = false

module _ (fl : Floyd) where
  -- Exist
  abbrev pub exist : Register fl → Bool
  exist r = not (r.ctime == 0)

  -- The constructor on a store.
  abbrev pub fresh : fl.Store → Register fl
  fresh st = record { ctime = 0; total_size = 0; refer = pos 0; diff_keys = []; store = st }

  -- The loop of Init over the diffs.
  unfoldable pub write_diffs : Register fl → List fl.Diff → Status × Register fl
  write_diffs r [] = (ok, r)
  write_diffs r (d ∷ ds) = elim (fl.serialize d) [
    | none ↦ (corruption, r)
    | some v ↦ elim (is_ok (fl.write r.store (fl.diff_key d) v).0) [
      | false ↦ (
        (fl.write r.store (fl.diff_key d) v).0,
        record r { store = (fl.write r.store (fl.diff_key d) v).1 },
      )
      | true ↦
          write_diffs
            (record r {
              store = (fl.write r.store (fl.diff_key d) v).1;
              diff_keys = add_key (fl.diff_key d) r.diff_keys;
            })
            ds
    ]
  ]

  -- A MigrateHead, serialized and written to floyd.
  unfoldable pub write_head : fl.Store → Head → Status × fl.Store
  write_head st h = elim (fl.serialize_head h) [
    | none ↦ (corruption, st)
    | some v ↦ fl.write st head_key v
  ]

  -- The end of Init, at the time `now`, from what the loop returned.
  unfoldable pub finish_init : ℕ → Status × Register fl → Status × Register fl
  finish_init now (s, r) = elim (is_ok s) [
    | false ↦ (s, r)
    | true ↦
        let size = length r.diff_keys in
        let (s', st) =
          write_head r.store
            (record { begin_time = now; init_size = size; diff_names = r.diff_keys }) in
        (s', record r { store = st; total_size = size; ctime = if is_ok s' then now else r.ctime })
  ]

  -- Init
  unfoldable pub init_migrate : ℕ → Register fl → List fl.Diff → Status × Register fl
  init_migrate now r [] = (if exist r then complete else invalid_argument, r)
  init_migrate now r (d ∷ ds) =
      if exist r then (complete, r) else finish_init now (write_diffs r (d ∷ ds))

  -- Check: the begin time and the proportion, an expression of size_t, where they are set.
  unfoldable pub check : Register fl → Status × Option ℕ × Option ℕ
  check r =
      if not (exist r)
      then (not_found, none, none)
      else if r.total_size == 0
      then (corruption, some r.ctime, none)
      else (
        ok,
        some r.ctime,
        some ((100 + 2 ^ 64 - length r.diff_keys * 100 / r.total_size) % 2 ^ 64),
      )

  abbrev pub delete_all : fl.Store → List String → fl.Store
  delete_all st [] = st
  delete_all st (k ∷ ks) = delete_all (fl.delete st k).1 ks

  -- CancelWithoutLock
  unfoldable pub cancel : Register fl → Status × Register fl
  cancel r =
      if not (exist r)
      then (ok, r)
      else if is_ok (fl.delete r.store head_key).0
      then (ok, fresh (delete_all (fl.delete r.store head_key).1 r.diff_keys))
      else ((fl.delete r.store head_key).0, record r { store = (fl.delete r.store head_key).1 })

  -- Erase, from its refer_-- on, with the keys that are left.
  unfoldable pub erase_rest : String → Register fl → List String → Status × Register fl
  erase_rest k r [] = cancel r
  erase_rest k r (j ∷ ks) =
      let (s, st) =
        write_head r.store
          (record { begin_time = r.ctime; init_size = r.total_size; diff_names = j ∷ ks }) in
      if is_ok s
      then (ok, record r { store = (fl.delete st k).1; diff_keys = drop_key k r.diff_keys })
      else (s, record r { store = st })

  -- Erase
  unfoldable pub erase_diff : Register fl → String → Status × Register fl
  erase_diff r k =
      if not (exist r)
      then (not_found, r)
      else if not (has_key k r.diff_keys)
      then (complete, r)
      else erase_rest k (record r { refer = sub r.refer 1 }) (drop_key k r.diff_keys)

  -- A diff item as GetN and Load read it.
  abbrev pub item_of : Status × String → Status × Option fl.Diff
  item_of (s, v) = elim (is_ok s) [
    | false ↦ (s, none)
    | true ↦ elim (fl.parse v) [ none ↦ (corruption, none) | some d ↦ (ok, some d) ]
  ]

  unfoldable pub read_diff : fl.Store → String → Status × Option fl.Diff
  read_diff st k = item_of (fl.read st k)

  -- The loop of GetN over the first `count` keys: the items that it has pushed.
  unfoldable pub read_diffs : fl.Store → ℕ → List String → Status × List fl.Diff
  read_diffs st zero ks = (ok, [])
  read_diffs st (suc count) [] = (ok, [])
  read_diffs st (suc count) (k ∷ ks) =
      let (s, ds) = read_diffs st count ks in
      elim (read_diff st k).1 [ none ↦ ((read_diff st k).0, []) | some d ↦ (s, d ∷ ds) ]

  -- GetN
  unfoldable pub get_n : Register fl → ℕ → Status × List fl.Diff × Register fl
  get_n r count =
      let n = if ltb (length r.diff_keys) count then length r.diff_keys else count in
      if not (exist r)
      then (not_found, [], r)
      else if is_positive r.refer
      then (incomplete, [], r)
      else (let (s, ds) = read_diffs r.store n r.diff_keys in
          (s, ds, if is_ok s then record r { refer = pos n } else r))

  -- PutN
  unfoldable pub put_n : Register fl → ℕ → Register fl
  put_n r count = if exist r then record r { refer = sub r.refer count } else r

  -- The loop of Load over the names in the head.
  unfoldable pub load_keys : Register fl → List String → Bool × Register fl
  load_keys r [] = (true, r)
  load_keys r (k ∷ ks) = elim (read_diff r.store k).1 [
    | none ↦ (false, r)
    | some d ↦ load_keys (record r { diff_keys = add_key k r.diff_keys }) ks
  ]

  -- Load, where the head was read and parsed.
  unfoldable pub load_head : Register fl → Head → Status × Register fl
  load_head r h =
      let (good, q) = load_keys (record r { total_size = h.init_size }) h.diff_names in
      if good then (ok, record q { ctime = h.begin_time; refer = pos 0 }) else (corruption, q)

  -- Load, from what reading the head returned.
  abbrev pub load_read : Register fl → Status × String → Status × Register fl
  load_read r (s, v) =
      if is_not_found s
      then (ok, r)
      else if not (is_ok s)
      then (s, r)
      else elim (fl.parse_head v) [ none ↦ (corruption, r) | some h ↦ load_head r h ]

  -- Load
  unfoldable pub load_migrate : Register fl → Status × Register fl
  load_migrate r = load_read r (fl.read r.store head_key)
