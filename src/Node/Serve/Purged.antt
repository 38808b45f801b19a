-- ===== src/Node/Serve/Purged.antt =====
-- SlaveAskSync after PurgeFiles, src/node/zp_data_partition.cc.
use zeppelin.Base.{
  ℕ, ◌<◌, ◌≡◌, refl, ◌⊎◌, inl, inr, Bool, true, ◌||◌, not, Option, some, List, [], ◌∷◌, ◌++◌,
  lt→ltb, Bool-cases,
}
use zeppelin.Env.{Status, end_file, corruption, incomplete}
use zeppelin.Node.World.{Node, BinlogOffset, offset_lt, World}
use zeppelin.Node.Partition.{
  Partition, try_db_sync, shifted, port_shift_rsync, role_eq, master, contains, emit,
}
use zeppelin.Node.Purge.{PurgeOptions, purge_files}
use zeppelin.Node.Purge.Safe.{Ascending, has, purge_files-Gone}
use zeppelin.Node.Serve.{slave_ask_sync}

module _ (w : World) where
  -- The three answers with no task that sends the binlog: to a node that is no slave of this master,
  -- to one that is ahead, and to one that needs the whole data first.
  pub IsUnsent : Partition w → Node → Status × Partition w → Type 0
  IsUnsent p node x =
      (x ≡ (corruption, p))
      ⊎ (x ≡ (end_file, p))
      ⊎ ((x.0 ≡ incomplete)
          × (x.1.effects ≡ p.effects ++ try_db_sync (shifted port_shift_rsync node) ∷ []))

  purged-IsUnsent :
      (send_task : Node → BinlogOffset → Status) (p : Partition w) (node : Node) (o : BinlogOffset)
      → o.filenum < p.purged_index
      → IsUnsent p node (slave_ask_sync w send_task p node o)
  unfolding slave_ask_sync IsUnsent emit
  purged-IsUnsent send_task p node o h =
      elim (Bool-cases (not (role_eq p.role master) || not (contains node p.slave_nodes))) [
        | inl stranger ↦ rw stranger (inl refl)
        | inr known ↦ elim (Bool-cases (offset_lt (w.position p.log) o)) [
          | inl ahead ↦ rw (known, ahead) (inr (inl refl))
          | inr behind ↦
              rw (known, behind, lt→ltb o.filenum p.purged_index h) (inr (inr (refl, refl)))
        ]
      ]

  -- After a PurgeFiles over files in ascending order, a slave that asks for a position in one of
  -- these files either finds the file still there, or gets no task that sends the binlog.
  pub slave_ask_sync-purge_files :
      (sends : Node → Option ℕ) (deletes : ℕ → Bool) (o : PurgeOptions) (p : Partition w)
      (files : List ℕ) (send_task : Node → BinlogOffset → Status) (node : Node) (at : BinlogOffset)
      → Ascending 0 files
      → has at.filenum files ≡ true
      → (left : List ℕ) × ((purge_files w sends deletes o p (some files)).2 ≡ some left)
        × ((has at.filenum left ≡ true)
            ⊎ IsUnsent (purge_files w sends deletes o p (some files)).1 node (
                slave_ask_sync w send_task
                  (purge_files w sends deletes o p (some files)).1
                  node
                  at))
  slave_ask_sync-purge_files sends deletes o p files send_task node at h m =
      let (left, same, either) = purge_files-Gone w sends deletes o p files at.filenum h m in
      (
        left,
        same,
        elim either [
          | inl there ↦ inl there
          | inr gone ↦ inr (
              purged-IsUnsent send_task (purge_files w sends deletes o p (some files)).1 node at
                gone.known)
        ],
      )
