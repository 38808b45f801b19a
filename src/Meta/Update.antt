-- ===== src/Meta/Update.antt =====
-- class ZPMetaUpdateThread of src/meta/zp_meta_update_thread.cc: the thread that applies the changes
-- of the meta data. Floyd and the serialization are parameters, and `none` stands for the end of the
-- process or a failed access, as in the functions that it calls. A task holds its arguments parsed.
pub mod Tracks
pub mod Refreshed
pub mod Composes
pub mod Tokens
use Prim.Native.String.{String}
use zeppelin.Base.{
  ℕ, zero, suc, ◌+◌, Bool, true, false, ◌&&◌, ◌||◌, not, Option, none, some, List, [], ◌∷◌, ◌++◌,
  if◌then◌else◌,
}
use zeppelin.Base.Int.{ℤ}
use zeppelin.Env.{Status, ok, corruption, incomplete, is_ok}
use zeppelin.Meta.Data.{Node, PState, Table, Formats}
use zeppelin.Meta.Snapshot.{
  Snapshot, up_node, down_node, remove_nodes, add_slave, delete_slave, handover, set_master,
  add_table, remove_table, change_pstate, members_change,
}
use zeppelin.Meta.Refresh.{refresh_table_with_node_alive}
use zeppelin.Meta.Store.{Floyds, Protos, Store}
use zeppelin.Meta.Store.Apply.{Taken, get_snapshot, apply}

-- UpdateTask with its ZPMetaUpdateOP; the arguments in the order of the snapshot's method.
pub data Update : Type 0 where
  up down : String → Update
  remove : List Node → Update
  adds_table : Table → Update
  removes_table : String → Update
  adds_slave removes_slave sets_master : String → ℤ → String → Update
  hands_over : String → ℤ → String → String → Update
  sets_active sets_stuck sets_slowdown : String → ℤ → Update
  adds_meta removes_meta : String → Update
  unknown : Update

-- The pending tasks, and whether the thread is stuck or should stop.
pub record Queue : Type 0 where
  pub is_stuck : Bool
  pub should_stop : Bool
  pub tasks : List Update

-- PendingUpdate: its status, the queue, and whether it schedules UpdateFunc.
unfoldable pub pending_update : Queue → Update → Status × Queue × Bool
pending_update q u =
    if q.is_stuck
    then (incomplete, q, false)
    else if q.should_stop
    then (incomplete, q, false)
    else (ok, record q { tasks = q.tasks ++ u ∷ [] }, elim q.tasks [ [] ↦ true | v ∷ vs ↦ false ])

-- Active and Abandon, and what UpdateFunc takes from the queue.
abbrev pub active : Queue → Queue
active q = record q { should_stop = false }

abbrev pub abandon : Queue → Queue
abandon q = record q { should_stop = true; tasks = [] }

abbrev pub take_tasks : Queue → List Update × Queue
take_tasks q = (q.tasks, record q { tasks = [] })

abbrev pub is_handover : Update → Bool
is_handover (hands_over table partition left right) = true
is_handover _ = false

-- handover_count
abbrev pub handover_count : List Update → ℕ
handover_count [] = 0
handover_count (u ∷ us) = if is_handover u then suc (handover_count us) else handover_count us

-- The migrations that ApplyUpdates erases when it is done.
abbrev pub handovers : List Update → List Update
handovers [] = []
handovers (u ∷ us) = if is_handover u then u ∷ handovers us else handovers us

abbrev pub is_io_error : Status → Bool
is_io_error Status.io_error = true
is_io_error _ = false

module _ (fm : Formats) where
  -- The switch of ApplyUpdates, at the time `now`
  unfoldable pub run_task : ℕ → Update → Snapshot → Status × Snapshot
  run_task now (up node) s = up_node s now node
  run_task now (down node) s = down_node s node
  run_task now (remove nodes) s = remove_nodes fm s nodes
  run_task now (adds_table table) s = add_table s table
  run_task now (removes_table table) s = remove_table s table
  run_task now (adds_slave table partition node) s = add_slave fm s table partition node
  run_task now (removes_slave table partition node) s = delete_slave fm s table partition node
  run_task now (sets_master table partition node) s = set_master fm s table partition node
  run_task now (hands_over table partition left right) s = handover fm s table partition left right
  run_task now (sets_active table partition) s = change_pstate s table partition PState.active
  run_task now (sets_stuck table partition) s = change_pstate s table partition PState.stuck
  run_task now (sets_slowdown table partition) s = change_pstate s table partition PState.slowdown
  run_task now (adds_meta node) s = members_change s node true
  run_task now (removes_meta node) s = members_change s node false
  run_task now unknown s = (corruption, s)

  -- The loop over the tasks: the snapshot, and has_succ.
  unfoldable pub run_tasks : ℕ → List Update → Snapshot → Bool × Snapshot
  run_tasks now [] s = (false, s)
  run_tasks now (u ∷ us) s =
      let x = run_task now u s in let rest = run_tasks now us x.1 in (is_ok (x.0) || rest.0, rest.1)

  module _ (pb : Protos) (fl : Floyds) where
    -- What ApplyUpdates ends with: also the number that it gives back with PutN, and the handovers
    -- whose migration it erases.
    pub record Applied : Type 0 where
      pub status : Status
      pub state : fl.State
      pub store : Store
      pub put_back : ℕ
      pub erased : List Update

    -- The loop of Apply: `stops n` is should_stop_ at its n-th reading, and the fuel bounds how often
    -- Apply is called.
    unfoldable pub retry :
        ℕ
        → (ℕ → Bool)
        → ℕ
        → Node
        → ℕ
        → Taken
        → fl.State
        → Store
        → Option (Status × fl.State × Store × ℕ)
    retry zero stops n mine now t st s = none
    retry (suc fuel) stops n mine now t st s = elim (apply fm pb fl mine now t st s) [
      | none ↦ none
      | some (r, st', s') ↦ elim (not (stops n) && is_io_error r) [
        | true ↦ retry fuel stops (suc n) mine now t st' s'
        | false ↦ some (r, st', s', suc n)
      ]
    ]

    -- The end of ApplyUpdates
    abbrev pub ends :
        (ℕ → Bool) → List Update → Option (Status × fl.State × Store × ℕ) → Option Applied
    ends stops us none = none
    ends stops us (some (r, st, s, n)) = some (
        if stops n || not (is_ok r)
        then record { status = r; state = st; store = s; put_back = handover_count us; erased = [] }
        else record { status = r; state = st; store = s; put_back = 0; erased = handovers us })

    abbrev pub with_snapshot : ℤ → Option Snapshot → Option Taken
    with_snapshot e none = none
    with_snapshot e (some s) = some (record { snap_epoch = e; snap = s })

    -- The snapshot that ApplyUpdates hands to Apply
    unfoldable pub prepared : ℕ → List Update → Store → Option Taken
    prepared now us s =
        let t = get_snapshot s in
        with_snapshot t.snap_epoch (refresh_table_with_node_alive fm (run_tasks now us t.snap).1)

    -- ApplyUpdates of the server at the address `mine`
    unfoldable pub apply_updates :
        ℕ → (ℕ → Bool) → Node → ℕ → List Update → fl.State → Store → Option Applied
    apply_updates fuel stops mine now us st s = elim (run_tasks now us (get_snapshot s).snap).0 [
      | false ↦ some (record {
        status = corruption;
        state = st;
        store = s;
        put_back = handover_count us;
        erased = [];
      })
      | true ↦ elim (prepared now us s) [
        | none ↦ none
        | some t ↦ ends stops us (retry fuel stops 0 mine now t st s)
      ]
    ]
