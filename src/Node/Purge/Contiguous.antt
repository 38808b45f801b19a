-- ===== src/Node/Purge/Contiguous.antt =====
-- PurgeFiles of src/node/zp_data_partition.cc, and CheckBinlogFiles on what it leaves.
use zeppelin.Base.{
  ℕ, ◌-◌, ◌≡◌, refl, inl, inr, Bool, true, ◌&&◌, ◌||◌, not, Option, some, List, [], ◌∷◌, length,
  ltb, leb, arith, Bool-cases,
}
use zeppelin.Node.World.{Node, World}
use zeppelin.Node.Partition.{Partition}
use zeppelin.Node.Purge.{
  PurgeOptions, could_purge, purge_loop, purge_files, no_hole, check_binlog_files,
}

check-tail :
    (f : ℕ) (fs : List ℕ)
    → (check_binlog_files (some (f ∷ fs))).0 ≡ true
    → (check_binlog_files (some fs)).0 ≡ true
unfolding check_binlog_files no_hole
check-tail f [] h = refl
check-tail f (m ∷ ms) h = ground (arith, h)

module _ (w : World) (sends : Node → Option ℕ) (deletes : ℕ → Bool)
    (deletes_ok : (f : ℕ) → deletes f ≡ true) where
  purge_loop-check :
      (o : PurgeOptions) (fs : List ℕ) (remain : ℕ) (p : Partition w)
      → (check_binlog_files (some fs)).0 ≡ true
      → (check_binlog_files (some (purge_loop w sends deletes o fs remain p).2)).0 ≡ true
  unfolding purge_loop
  purge_loop-check o [] remain p h = h
  purge_loop-check o (f ∷ fs) remain p h =
      let stays = not ((o.manual && leb f o.to) || ltb 0 remain || o.expired f) in
      elim (Bool-cases stays) [
        | inl yes' ↦ rw yes' h
        | inr no' ↦ elim (Bool-cases (could_purge w sends deletes p f).0) [
          | inr refused ↦ rw (no', refused) h
          | inl allowed ↦
              rw (no', allowed, deletes_ok f)
                (purge_loop-check o fs (remain - 1) (could_purge w sends deletes p f).1
                  (check-tail f fs h))
        ]
      ]

  -- Where no deletion fails, a purge of files among which CheckBinlogFiles finds no hole leaves
  -- files among which it finds none.
  pub purge_files-check :
      (o : PurgeOptions) (p : Partition w) (files : List ℕ)
      → (check_binlog_files (some files)).0 ≡ true
      → (check_binlog_files (purge_files w sends deletes o p (some files)).2).0 ≡ true
  unfolding purge_files
  purge_files-check o p files h =
      elim (Bool-cases (not p.opened || leb (length files) o.remain_min_count)) [
        | inl skips ↦ rw skips h
        | inr goes ↦ rw goes (purge_loop-check o files (length files - o.remain_max_count) p h)
      ]
