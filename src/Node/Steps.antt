-- ===== src/Node/Steps.antt =====
-- The sequences of steps of a partition, src/node/zp_data_partition.cc.
use zeppelin.Env.{Status}
use zeppelin.Base.{
  refl, if◌then◌else◌, [], ◌∷◌, length, ◌-◌, ℕ, ◌≡◌, Bool, Option, none, some, List, Option-cases,
  Bool-cases, inl, inr, arith, of_some, subst,
}
use zeppelin.Node.World.{Node, BinlogOffset, World}
use zeppelin.Node.Partition.{Partition, Disk, PState, reset_recover_sync, update, leave}
use zeppelin.Node.Sync.{
  check_sync_option, need_recover_sync, logged, SyncOption, set_wait_dbsync, wait_dbsync_done,
  try_sync_done, do_binlog_command, do_binlog_skip, do_binlog_lease_renew, maybe_try_sync,
  set_binlog_offset,
}
use zeppelin.Node.Purge.{PurgeOptions, could_purge, purge_loop, purge_files}
use zeppelin.Node.Roles.{IsSound, become_single-IsSound, become_slave-IsSound, update-IsSound}

module _ (w : World) where
  -- The steps of a partition: the meta server's updates, Leave, the connection steps of the sync
  -- threads, items from the master, the timer, and purges.
  pub data Step (p : Partition w) (q : Partition w) : Type 0 where
    updates :
        (delete : Bool) (is_self : Node → Bool) (disk : Disk w) (now : ℕ) (state : PState)
        (m : Node) (slaves : List Node)
        → update w delete is_self disk now p state m slaves ≡ some q
        → Step p q
    leaves : (delete : Bool) (self : Node) → leave w delete self p ≡ q → Step p q
    waits_dbsync : set_wait_dbsync w p ≡ some q → Step p q
    ends_dbsync : wait_dbsync_done w p ≡ some q → Step p q
    connects : try_sync_done w p ≡ some q → Step p q
    takes :
        (now : ℕ) (option : SyncOption) (req : w.Request)
        → do_binlog_command w now p option req ≡ some q
        → Step p q
    skips :
        (now : ℕ) (option : SyncOption) (gap : ℕ)
        → do_binlog_skip w now p option gap ≡ some q
        → Step p q
    renews :
        (now : ℕ) (option : SyncOption) (lease : ℕ)
        → do_binlog_lease_renew w now p option lease ≡ q
        → Step p q
    checks : (disk : Disk w) (now : ℕ) → maybe_try_sync w disk now p ≡ some q → Step p q
    purges :
        (sends : Node → Option ℕ) (deletes : ℕ → Bool) (o : PurgeOptions) (files : Option (List ℕ))
        → (purge_files w sends deletes o p files).1 ≡ q
        → Step p q
    moves : (now : ℕ) (target : BinlogOffset) → set_binlog_offset w now p target ≡ some q → Step p q

  pub data Reach (p : Partition w) : Partition w → Type 0 where
    here : Reach p p
    next : {q r : Partition w} → Reach p q → Step q r → Reach p r

  SameRole : Partition w → Partition w → Type 0
  SameRole p q = (q.role ≡ p.role) × (q.opened ≡ p.opened) × (q.repl_state ≡ p.repl_state)

  SameRole-IsSound : (p q : Partition w) → SameRole p q → IsSound w p → IsSound w q
  unfolding SameRole
  SameRole-IsSound p q e h = ground arith

  check_sync_option-same :
      (now : ℕ) (p : Partition w) (option : SyncOption)
      → SameRole p (check_sync_option w now p option).1
  unfolding check_sync_option SameRole reset_recover_sync
  check_sync_option-same now p option = ground arith

  logged-same :
      (p q : Partition w) (db : w.Db) (x : Option (Status × w.Log))
      → logged w p db x ≡ some q
      → SameRole p q
  unfolding SameRole
  logged-same p q db none e = absurd (ground arith)
  logged-same p q db (some (s, log)) e = ground arith

  SameRole-trans : (p q r : Partition w) → SameRole p q → SameRole q r → SameRole p r
  unfolding SameRole
  SameRole-trans p q r h k = ground arith

  do_binlog_command-same :
      (now : ℕ) (p q : Partition w) (option : SyncOption) (req : w.Request)
      → do_binlog_command w now p option req ≡ some q
      → SameRole p q
  unfolding do_binlog_command
  do_binlog_command-same now p q option req e =
      let (taken, r) = check_sync_option w now p option in
      let same = check_sync_option-same now p option in
      elim (Bool-cases taken) [
        | inl yes' ↦
            SameRole-trans p r q same (logged-same r q _ _ (rw (yes', do_binlog_command) at e))
        | inr no' ↦ subst (SameRole p) (of_some (rw (no', do_binlog_command) at e)) same
      ]

  do_binlog_skip-same :
      (now : ℕ) (p q : Partition w) (option : SyncOption) (gap : ℕ)
      → do_binlog_skip w now p option gap ≡ some q
      → SameRole p q
  unfolding do_binlog_skip
  do_binlog_skip-same now p q option gap e =
      let (taken, r) = check_sync_option w now p option in
      let same = check_sync_option-same now p option in
      elim (Bool-cases taken) [
        | inl yes' ↦
            SameRole-trans p r q same (logged-same r q _ _ (rw (yes', do_binlog_skip) at e))
        | inr no' ↦ subst (SameRole p) (of_some (rw (no', do_binlog_skip) at e)) same
      ]

  do_binlog_lease_renew-same :
      (now : ℕ) (p : Partition w) (option : SyncOption) (lease : ℕ)
      → SameRole p (do_binlog_lease_renew w now p option lease)
  unfolding do_binlog_lease_renew SameRole
  do_binlog_lease_renew-same now p option lease =
      ground (arith, check_sync_option-same now p option)

  need_recover_sync-same : (now : ℕ) (p : Partition w) → SameRole p (need_recover_sync w now p).1
  unfolding need_recover_sync SameRole
  need_recover_sync-same now p = ground arith

  set_binlog_offset-same :
      (now : ℕ) (p q : Partition w) (target : BinlogOffset)
      → set_binlog_offset w now p target ≡ some q
      → SameRole p q
  unfolding set_binlog_offset SameRole
  set_binlog_offset-same now p q target e =
      elim (Option-cases (w.set_position p.log target p.purged_index)) [
        | inl failed ↦ absurd (ground (arith, failed))
        | inr (x, made) ↦ ground (arith, made)
      ]

  could_purge-SameRole :
      (sends : Node → Option ℕ) (deletes : ℕ → Bool) (p : Partition w) (i : ℕ)
      → SameRole p (could_purge w sends deletes p i).1
  unfolding could_purge SameRole
  could_purge-SameRole sends deletes p i = ground arith

  purge_loop-SameRole :
      (sends : Node → Option ℕ) (deletes : ℕ → Bool) (o : PurgeOptions) (fs : List ℕ) (remain : ℕ)
      (p : Partition w)
      → SameRole p (purge_loop w sends deletes o fs remain p).1
  unfolding purge_loop SameRole
  purge_loop-SameRole sends deletes o [] remain p = (refl, refl, refl)
  purge_loop-SameRole sends deletes o (f ∷ fs) remain p =
      let remain' = if deletes f then remain - 1 else remain in
      let q = (could_purge w sends deletes p f).1 in
      ground (
        arith,
        could_purge-SameRole sends deletes p f,
        purge_loop-SameRole sends deletes o fs remain' q,
      )

  purge_files-SameRole :
      (sends : Node → Option ℕ) (deletes : ℕ → Bool) (o : PurgeOptions) (files : Option (List ℕ))
      (p : Partition w)
      → SameRole p (purge_files w sends deletes o p files).1
  unfolding purge_files SameRole
  purge_files-SameRole sends deletes o none p = (refl, refl, refl)
  purge_files-SameRole sends deletes o (some files) p =
      ground
        (arith, purge_loop-SameRole sends deletes o files (length files - o.remain_max_count) p)

  maybe_try_sync-IsSound :
      (disk : Disk w) (now : ℕ) (p q : Partition w)
      → IsSound w p
      → maybe_try_sync w disk now p ≡ some q
      → IsSound w q
  unfolding maybe_try_sync
  maybe_try_sync-IsSound disk now p q h e =
      let (needed, r) = need_recover_sync w now p in
      let same = need_recover_sync-same now p in
      elim (Bool-cases needed) [
        | inl yes' ↦ (become_slave-IsSound w disk now r q (rw (yes', maybe_try_sync) at e)).0
        | inr no' ↦
            subst (IsSound w) (of_some (rw (no', maybe_try_sync) at e))
              (SameRole-IsSound p r same h)
      ]

  leave-IsSound :
      (delete : Bool) (self : Node) (p : Partition w) → IsSound w (leave w delete self p)
  unfolding leave
  leave-IsSound delete self p = (become_single-IsSound w delete _).0

  set_wait_dbsync-IsSound :
      (p q : Partition w) → IsSound w p → set_wait_dbsync w p ≡ some q → IsSound w q
  unfolding set_wait_dbsync
  set_wait_dbsync-IsSound p q h e = ground arith

  wait_dbsync_done-IsSound :
      (p q : Partition w) → IsSound w p → wait_dbsync_done w p ≡ some q → IsSound w q
  unfolding wait_dbsync_done
  wait_dbsync_done-IsSound p q h e = ground arith

  try_sync_done-IsSound :
      (p q : Partition w) → IsSound w p → try_sync_done w p ≡ some q → IsSound w q
  unfolding try_sync_done
  try_sync_done-IsSound p q h e = ground arith

  Step-IsSound : (p q : Partition w) → Step p q → IsSound w p → IsSound w q
  Step-IsSound p q (updates delete is_self disk now state m slaves e) h =
      (update-IsSound w delete is_self disk now p q state m slaves h e).0
  Step-IsSound p q (leaves delete self e) h = subst (IsSound w) e (leave-IsSound delete self p)
  Step-IsSound p q (waits_dbsync e) h = set_wait_dbsync-IsSound p q h e
  Step-IsSound p q (ends_dbsync e) h = wait_dbsync_done-IsSound p q h e
  Step-IsSound p q (connects e) h = try_sync_done-IsSound p q h e
  Step-IsSound p q (takes now option req e) h =
      SameRole-IsSound p q (do_binlog_command-same now p q option req e) h
  Step-IsSound p q (skips now option gap e) h =
      SameRole-IsSound p q (do_binlog_skip-same now p q option gap e) h
  Step-IsSound p q (renews now option lease e) h = subst (IsSound w) e (
      SameRole-IsSound p (do_binlog_lease_renew w now p option lease)
        (do_binlog_lease_renew-same now p option lease) h)
  Step-IsSound p q (checks disk now e) h = maybe_try_sync-IsSound disk now p q h e
  Step-IsSound p q (purges sends deletes o files e) h = subst (IsSound w) e (
      SameRole-IsSound p (purge_files w sends deletes o p files).1
        (purge_files-SameRole sends deletes o files p) h)
  Step-IsSound p q (moves now target e) h =
      SameRole-IsSound p q (set_binlog_offset-same now p q target e) h

  -- From a partition whose role, open files and connection state agree, every sequence of steps
  -- leads to one where they do: a single node is closed, a master is open and has no connection, a
  -- slave is open and has a connection to ask for, to wait with or to use.
  pub Reach-IsSound : (p q : Partition w) → IsSound w p → Reach p q → IsSound w q
  Reach-IsSound p q h here = h
  Reach-IsSound p q h (next {q = r} x s) = Step-IsSound r q s (Reach-IsSound p r h x)
