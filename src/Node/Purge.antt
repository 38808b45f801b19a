-- ===== src/Node/Purge.antt =====
-- The binlog files of a partition, src/node/zp_data_partition.cc: CheckBinlogFiles, CouldPurge and
-- PurgeFiles. The files on disk are their numbers in ascending order, as GetBinlogFiles lists them;
-- `none` is a directory that cannot be read. The flag purging_ and the scheduling are left out.
pub mod Safe
pub mod Contiguous
use zeppelin.Base.{
  ℕ, zero, suc, ◌+◌, ◌-◌, Bool, true, false, ◌&&◌, ◌||◌, not, Option, none, some, List, [], ◌∷◌,
  length, ltb, leb, ◌==◌, if◌then◌else◌,
}
use zeppelin.Node.World.{Node, World}
use zeppelin.Node.Partition.{Partition, shifted, port_shift_sync}

-- The configuration and the call that PurgeFiles looks at, with whether a file has expired.
pub record PurgeOptions : Type 0 where
  pub remain_min_count : ℕ
  pub remain_max_count : ℕ
  pub to : ℕ
  pub manual : Bool
  pub expired : ℕ → Bool

-- No number is missing after n.
unfoldable pub no_hole : ℕ → List ℕ → Bool
no_hole n [] = true
no_hole n (m ∷ ms) = m == n + 1 && no_hole m ms

-- CheckBinlogFiles where the directory exists: its answer, and the new purged_index_ if there is one.
unfoldable pub check_binlog_files : Option (List ℕ) → Bool × Option ℕ
check_binlog_files none = (false, none)
check_binlog_files (some []) = (true, none)
check_binlog_files (some (n ∷ ns)) = (no_hole n ns, some n)

-- The test of one slave in CouldPurge; `none` is a negative number.
abbrev pub past : Option ℕ → ℕ → Bool
past none index = false
past (some filenum) index = ltb index filenum

-- The loop over the slaves; `sends` is GetBinlogSendFilenum of the data server.
unfoldable pub all_past : (Node → Option ℕ) → ℕ → List Node → Bool
all_past sends index [] = true
all_past sends index (n ∷ ns) =
    past (sends (shifted port_shift_sync n)) index && all_past sends index ns

module _ (w : World) (sends : Node → Option ℕ) (deletes : ℕ → Bool) where
  -- CouldPurge. An index below the producer's is below the maximum of uint32_t.
  unfoldable pub could_purge : Partition w → ℕ → Bool × Partition w
  could_purge p index =
      if ltb index (w.position p.log).filenum && all_past sends index p.slave_nodes
      then (true, record p { purged_index = index + 1 })
      else (false, p)

  -- The loop of PurgeFiles: its result, the partition, and the files that are left. `remain` is
  -- remain_expire_num, and 0 where that is negative; `deletes` is whether DeleteFile succeeds.
  unfoldable pub purge_loop : PurgeOptions → List ℕ → ℕ → Partition w → Bool × Partition w × List ℕ
  purge_loop o [] remain p = (true, p, [])
  purge_loop o (f ∷ fs) remain p =
      let (allowed, q) = could_purge p f in
      let (result, q', left) = purge_loop o fs (if deletes f then remain - 1 else remain) q in
      if not ((o.manual && leb f o.to) || ltb 0 remain || o.expired f)
      then (true, p, f ∷ fs)
      else if not allowed
      then (false, q, f ∷ fs)
      else (result, q', if deletes f then left else f ∷ left)

  -- PurgeFiles
  unfoldable pub purge_files :
      PurgeOptions → Partition w → Option (List ℕ) → Bool × Partition w × Option (List ℕ)
  purge_files o p none = (if p.opened then false else true, p, none)
  purge_files o p (some files) =
      if not p.opened || leb (length files) o.remain_min_count
      then (true, p, some files)
      else (let (result, q, left) = purge_loop o files (length files - o.remain_max_count) p in
          (result, q, some left))
