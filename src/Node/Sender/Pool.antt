-- ===== src/Node/Sender/Pool.antt =====
-- class ZPBinlogSendTaskPool, src/node/zp_binlog_sender.cc: the tasks that the sender threads take in
-- turns. Each operation runs under tasks_rwlock_, but for AddNewTask, which takes it once for each
-- call that it makes. An operation returns its status and the pool.
pub mod Valid
pub mod Turns
use Prim.Native.String.{String}
use text.Mathlib.Text.{◌==◌ as str_eq}
use zeppelin.Base.{
  ℕ, suc, ◌+◌, ◌-◌, ◌%◌, ◌^◌, Bool, true, false, ◌&&◌, ◌||◌, not, Option, none, some, List, [], ◌∷◌,
  ◌++◌, length, ltb, ◌==◌, if◌then◌else◌,
}
use zeppelin.Base.Int.{ℤ, pos, to_int32}
use zeppelin.Base.Assoc.{lookup, insert, erase}
use zeppelin.Env.{Status, ok, not_found, complete, SequentialFiles}
use zeppelin.Node.Sender.{Task, BinlogFiles, Fuel, create}

-- `iter` is the task that the iterator points to, `none` the iterator tasks_.end(). A task does not
-- change while it is in the list.
pub record Handle (q : SequentialFiles) : Type 0 where
  pub iter : Option (Task q)
  pub sequence : ℕ
  pub filenum_snap : ℕ

pub record Pool (q : SequentialFiles) : Type 0 where
  pub next_sequence : ℕ
  pub task_ptrs : List (String × Handle q)
  pub tasks : List (Task q)

module _ (q : SequentialFiles) where
  abbrev pub same_task : Task q → Task q → Bool
  same_task t u = str_eq t.name u.name && t.sequence == u.sequence

  -- tasks_.erase of the iterator to t
  unfoldable pub erase_task : Task q → List (Task q) → List (Task q)
  erase_task t [] = []
  erase_task t (u ∷ us) = if same_task t u then us else u ∷ erase_task t us

  abbrev pub is_end : Option (Task q) → Bool
  is_end none = true
  is_end (some t) = false

  abbrev pub new_pool : Pool q
  new_pool = record { next_sequence = 0; task_ptrs = []; tasks = [] }

  -- TaskExist
  unfoldable pub task_exist : Pool q → String → Bool
  task_exist p name = elim (lookup name p.task_ptrs) [ none ↦ false | some h ↦ true ]

  -- AddTask
  unfoldable pub add_task : Pool q → Task q → Status × Pool q
  add_task p t = elim (lookup t.name p.task_ptrs) [
    | some h ↦ (complete, p)
    | none ↦ (
      ok,
      record p {
        tasks = p.tasks ++ t ∷ [];
        task_ptrs =
            insert t.name
              (record { iter = some t; sequence = t.sequence; filenum_snap = t.filenum })
              p.task_ptrs;
      },
    )
  ]

  abbrev pub erased : Option (Task q) → List (Task q) → List (Task q)
  erased none us = us
  erased (some t) us = erase_task t us

  -- RemoveTask
  unfoldable pub remove_task : Pool q → String → Status × Pool q
  remove_task p name = elim (lookup name p.task_ptrs) [
    | none ↦ (not_found, p)
    | some h ↦ (ok, record p { tasks = erased h.iter p.tasks; task_ptrs = erase name p.task_ptrs })
  ]

  -- std::numeric_limits<int32_t>::max()
  abbrev pub max_filenum : ℤ
  max_filenum = pos 2147483647

  -- TaskFilenum
  unfoldable pub task_filenum : Pool q → String → ℤ
  task_filenum p name = elim (lookup name p.task_ptrs) [
    | none ↦ max_filenum
    | some h ↦ elim h.iter [ none ↦ to_int32 h.filenum_snap | some t ↦ to_int32 t.filenum ]
  ]

  -- task_ptrs_[name]
  abbrev pub handle_or_new : Option (Handle q) → Handle q
  handle_or_new none = record { iter = none; sequence = 0; filenum_snap = 0 }
  handle_or_new (some h) = h

  -- FetchOut
  unfoldable pub fetch_out : Pool q → Status × Option (Task q) × Pool q
  fetch_out p = elim p.tasks [
    | [] ↦ (not_found, none, p)
    | t ∷ ts ↦ (
      ok,
      some t,
      record p {
        tasks = ts;
        task_ptrs =
            insert t.name (record (handle_or_new (lookup t.name p.task_ptrs)) { iter = none })
              p.task_ptrs;
      },
    )
  ]

  -- PutBack. A task that is not accepted is deleted.
  unfoldable pub put_back : Pool q → Task q → Status × Pool q
  put_back p t = elim (lookup t.name p.task_ptrs) [
    | none ↦ (not_found, p)
    | some h ↦ if not (is_end h.iter) || not (h.sequence == t.sequence) then (not_found, p) else (
      ok,
      record p {
        tasks = p.tasks ++ t ∷ [];
        task_ptrs =
            insert t.name (record h { iter = some t; filenum_snap = t.filenum }) p.task_ptrs;
      },
    )
  ]

  -- What the other threads do to the pool before TaskExist, RemoveTask and AddTask of AddNewTask
  -- take the lock.
  pub record Meanwhile : Type 0 where
    pub before_exist : Pool q → Pool q
    pub before_remove : Pool q → Pool q
    pub before_add : Pool q → Pool q

  -- if (force && TaskExist(name)) RemoveTask(name)
  unfoldable pub make_room : Meanwhile → Bool → Pool q → String → Pool q
  make_room others false p name = p
  make_room others true p name =
      if task_exist (others.before_exist p) name
      then (remove_task (others.before_remove (others.before_exist p)) name).1
      else others.before_exist p

  -- AddNewTask, once the task is created
  unfoldable pub add_created : Meanwhile → Bool → Pool q → Task q → Status × Pool q
  add_created others force p t = add_task (others.before_add (make_room others force p t.name)) t

  -- AddNewTask; the name is ZPBinlogSendTaskName of the partition and the target.
  unfoldable pub add_new_task :
      Meanwhile → Fuel → BinlogFiles q → Pool q → String → ℕ → ℕ → Bool → Option (Status × Pool q)
  add_new_task others fuel files p name filenum offset force =
      let p' = record p { next_sequence = (p.next_sequence + 1) % 2 ^ 64 } in
      elim (create q fuel files p.next_sequence name filenum offset) [
        | none ↦ none
        | some (s, none) ↦ some (s, p')
        | some (s, some t) ↦ some (add_created others force p' t)
      ]
