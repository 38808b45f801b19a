-- ===== src/Node/Purge/Safe.antt =====
-- The files that PurgeFiles of src/node/zp_data_partition.cc removes.
use zeppelin.Base.{
  ℕ, suc, ◌+◌, ◌-◌, ◌≤◌, ◌<◌, ◌≡◌, refl, ltb→lt, sym, subst, ◌⊎◌, inl, inr, Bool, true, false, ◌&&◌,
  ◌||◌, not, Option, none, some, List, [], ◌∷◌, length, ltb, leb, ◌==◌, if◌then◌else◌, arith,
  Bool-cases,
}
use zeppelin.Node.World.{Node, World}
use zeppelin.Node.Partition.{Partition, shifted, port_shift_sync}
use zeppelin.Node.Purge.{PurgeOptions, past, all_past, could_purge, purge_loop, purge_files}

-- Numbers from `bound` on, in ascending order.
abbrev pub Ascending : ℕ → List ℕ → Type 0
Ascending bound [] = Unit
Ascending bound (f ∷ fs) = (bound ≤ f) × Ascending (suc f) fs

abbrev pub has : ℕ → List ℕ → Bool
has i [] = false
has i (f ∷ fs) = i == f || has i fs

-- Every node of the list is sent to, and what it is sent is in a file behind which `index` is.
abbrev pub SentBeyond : (Node → Option ℕ) → ℕ → List Node → Type 0
SentBeyond sends index [] = Unit
SentBeyond sends index (n ∷ ns) =
    ((filenum : ℕ) × (sends (record n { port = n.port + 200 }) ≡ some filenum) × (index < filenum))
    × SentBeyond sends index ns

past-beyond :
    (o : Option ℕ) (index : ℕ)
    → past o index ≡ true
    → (filenum : ℕ) × (o ≡ some filenum) × (index < filenum)
past-beyond none index h = absurd (ground (arith, h))
past-beyond (some f) index h = (f, refl, ltb→lt index f h)

all_past-SentBeyond :
    (sends : Node → Option ℕ) (index : ℕ) (ns : List Node)
    → all_past sends index ns ≡ true
    → SentBeyond sends index ns
unfolding all_past
all_past-SentBeyond sends index [] h = tt
all_past-SentBeyond sends index (n ∷ ns) h =
    let here : past (sends (shifted port_shift_sync n)) index ≡ true = ground (arith, h) in
    let rest : all_past sends index ns ≡ true = ground (arith, h) in
    (
      past-beyond (sends (shifted port_shift_sync n)) index here,
      all_past-SentBeyond sends index ns rest,
    )

head_or_tail : (i f : ℕ) (b : Bool) → (i == f || b) ≡ true → (i ≡ f) ⊎ (b ≡ true)
head_or_tail i f b h = ground arith

module _ (w : World) (sends : Node → Option ℕ) (deletes : ℕ → Bool) where
  -- The file i is behind the producer's and behind what every slave of p is sent, and q knows it as
  -- purged.
  pub record Gone (p q : Partition w) (i : ℕ) : Type 0 where
    pub written : i < (w.position p.log).filenum
    pub sent : SentBeyond sends i p.slave_nodes
    pub known : i < q.purged_index

  could_purge-allowed :
      (p : Partition w) (i : ℕ)
      → (could_purge w sends deletes p i).0 ≡ true
      → (i < (w.position p.log).filenum)
        × (all_past sends i p.slave_nodes ≡ true)
        × ((could_purge w sends deletes p i).1.purged_index ≡ suc i)
  unfolding could_purge
  could_purge-allowed p i h = ground arith

  could_purge-refused :
      (p : Partition w) (i : ℕ)
      → (could_purge w sends deletes p i).0 ≡ false
      → (could_purge w sends deletes p i).1 ≡ p
  unfolding could_purge
  could_purge-refused p i h = ground arith

  could_purge-same :
      (p : Partition w) (i : ℕ)
      → ((could_purge w sends deletes p i).1.log ≡ p.log)
        × ((could_purge w sends deletes p i).1.slave_nodes ≡ p.slave_nodes)
  unfolding could_purge
  could_purge-same p i = ground arith

  -- The index never moves back while the files are taken in ascending order.
  purge_loop-index :
      (o : PurgeOptions) (fs : List ℕ) (remain bound : ℕ) (p : Partition w)
      → Ascending bound fs
      → bound ≤ p.purged_index
      → bound ≤ (purge_loop w sends deletes o fs remain p).1.purged_index
  unfolding purge_loop
  purge_loop-index o [] remain bound p h k = k
  purge_loop-index o (f ∷ fs) remain bound p (above, rest) k =
      let stays = not ((o.manual && leb f o.to) || ltb 0 remain || o.expired f) in
      let q = (could_purge w sends deletes p f).1 in
      elim (Bool-cases stays) [
        | inl yes' ↦ rw yes' k
        | inr no' ↦ elim (Bool-cases (could_purge w sends deletes p f).0) [
          | inr refused ↦
              rw (no', refused)
                (subst (λ (x : Partition w). bound ≤ x.purged_index)
                  (sym (could_purge-refused p f refused)) k)
          | inl allowed ↦
              let (_, _, moved) = could_purge-allowed p f allowed in
              let further =
                purge_loop-index o fs (if deletes f then remain - 1 else remain) (suc f) q rest
                  (omega (arith, moved)) in
              rw (no', allowed) (omega (arith, further))
        ]
      ]

  Gone-before :
      (p q : Partition w) (i f : ℕ) → Gone (could_purge w sends deletes p f).1 q i → Gone p q i
  Gone-before p q i f g =
      let (log_same, slaves_same) = could_purge-same p f in
      record {
        written = subst (λ (l : w.Log). i < (w.position l).filenum) log_same g.written;
        sent = subst (SentBeyond sends i) slaves_same g.sent;
        known = g.known;
      }

  -- After a round that could purge f, from what holds for the files behind it.
  removed_or_left :
      (p q : Partition w) (i f : ℕ) (fs left : List ℕ) (deleted : Bool)
      → (could_purge w sends deletes p f).0 ≡ true
      → suc f ≤ q.purged_index
      → (has i fs ≡ true → (has i left ≡ true) ⊎ Gone (could_purge w sends deletes p f).1 q i)
      → (i ≡ f) ⊎ (has i fs ≡ true)
      → (has i (if deleted then left else f ∷ left) ≡ true) ⊎ Gone p q i
  removed_or_left p q i f fs left true allowed known later (inl e) =
      let (written, sent, _) = could_purge-allowed p f allowed in
      inr (record {
        written = omega (arith, written, e);
        sent =
            all_past-SentBeyond sends i p.slave_nodes
              (subst (λ (n : ℕ). all_past sends n p.slave_nodes ≡ true) (sym e) sent);
        known = omega (arith, known, e);
      })
  removed_or_left p q i f fs left false allowed known later (inl e) = inl (ground (arith, e))
  removed_or_left p q i f fs left deleted allowed known later (inr t) = elim (later t) [
    | inl l ↦ inl (in_either deleted l)
    | inr g ↦ inr (Gone-before p q i f g)
  ]
    where
      in_either : (b : Bool) → has i left ≡ true → has i (if b then left else f ∷ left) ≡ true
      in_either true l = l
      in_either false l = ground (arith, l)

  purge_loop-Gone :
      (o : PurgeOptions) (fs : List ℕ) (remain bound : ℕ) (p : Partition w) (i : ℕ)
      → Ascending bound fs
      → has i fs ≡ true
      → (has i (purge_loop w sends deletes o fs remain p).2 ≡ true)
        ⊎ Gone p (purge_loop w sends deletes o fs remain p).1 i
  unfolding purge_loop
  purge_loop-Gone o [] remain bound p i h m = absurd (ground arith)
  purge_loop-Gone o (f ∷ fs) remain bound p i (above, rest) m =
      let stays = not ((o.manual && leb f o.to) || ltb 0 remain || o.expired f) in
      let q = (could_purge w sends deletes p f).1 in
      elim (Bool-cases stays) [
        | inl yes' ↦ rw yes' (inl m)
        | inr no' ↦ elim (Bool-cases (could_purge w sends deletes p f).0) [
          | inr refused ↦ rw (no', refused) (inl m)
          | inl allowed ↦
              let remain' = if deletes f then remain - 1 else remain in
              let (_, _, moved) = could_purge-allowed p f allowed in
              let after = purge_loop w sends deletes o fs remain' q in
              rw (no', allowed)
                (removed_or_left p after.1 i f fs after.2 (deletes f) allowed
                  (purge_loop-index o fs remain' (suc f) q rest (omega (arith, moved)))
                  (λ t. purge_loop-Gone o fs remain' (suc f) q i rest t)
                  (head_or_tail i f (has i fs) m))
        ]
      ]

  -- Over files in ascending order, PurgeFiles leaves a file, or its number is below the number of
  -- the file that the producer writes, every slave of the partition is sent a file with a number
  -- above it, at the slave's address with the port of the synchronisation, and purged_index_ is
  -- above it after the call.
  pub purge_files-Gone :
      (o : PurgeOptions) (p : Partition w) (files : List ℕ) (i : ℕ)
      → Ascending 0 files
      → has i files ≡ true
      → (left : List ℕ) × ((purge_files w sends deletes o p (some files)).2 ≡ some left)
        × ((has i left ≡ true) ⊎ Gone p (purge_files w sends deletes o p (some files)).1 i)
  unfolding purge_files
  purge_files-Gone o p files i h m =
      elim (Bool-cases (not p.opened || leb (length files) o.remain_min_count)) [
        | inl skips ↦ (files, rw skips, inl m)
        | inr goes ↦
            let remain = length files - o.remain_max_count in
            (
              (purge_loop w sends deletes o files remain p).2,
              rw goes,
              rw goes (purge_loop-Gone o files remain 0 p i h m),
            )
      ]
