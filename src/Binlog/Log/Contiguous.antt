-- ===== src/Binlog/Log/Contiguous.antt =====
-- The binlog files on disk under Put and SetProducerStatus of src/common/zp_binlog.cc, as an interval
-- of numbers, which is what CheckBinlogFiles of src/node/zp_data_partition.cc looks for.
use zeppelin.Base.{
  ℕ, zero, suc, ◌+◌, ◌-◌, ◌%◌, ◌^◌, ◌≤◌, ◌<◌, ◌≡◌, refl, sym, ap, ◌∙◌, Bool, true, false, ◌&&◌,
  ◌||◌, not, Option, some, List, ltb, leb, ◌==◌, if◌then◌else◌, arith, Bool-cases, not-ltb→le, inl,
  inr,
}
use zeppelin.Base.Int.{pos, to_int32-small}
use zeppelin.Env.{Status, ok}
use zeppelin.Binlog.Format.{block_size}
use zeppelin.Binlog.Writer.{Writer, load, produce}
use zeppelin.Binlog.Writer.Total.{Ends, produce-Ends}
use zeppelin.Binlog.Version.{save, inc}
use zeppelin.Binlog.Log.{
  LogDirs, Binlog, start_file, maybe_roll, advance, put, remove_files, remove_between, clear_old,
  set_producer_status,
}

-- What the code relies on of the directory, where no file operation fails.
pub record DirLaws (d : LogDirs) : Type 0 where
  pub delete_ok : (dir : d.Dir) (n : ℕ) → (d.delete_file dir n).0 ≡ ok
  pub exists-delete :
      (dir : d.Dir) (n i : ℕ)
      → d.file_exists (d.delete_file dir n).1 i ≡ not (i == n) && d.file_exists dir i
  pub create_ok :
      (dir : d.Dir) (n : ℕ)
      → (f : d.files.File) × (dir' : d.Dir) × (d.create dir n ≡ some (f, dir'))
  pub exists-create :
      (dir : d.Dir) (n : ℕ) {f : d.files.File} {dir' : d.Dir}
      → d.create dir n ≡ some (f, dir')
      → (i : ℕ) → d.file_exists dir' i ≡ (i == n || d.file_exists dir i)

outside_step :
    (k count i : ℕ) (x : Bool)
    → not (leb (suc k) i && ltb i (suc k + count)) && (not (i == k) && x)
      ≡ not (leb k i && ltb i (k + suc count)) && x
outside_step k count i true = ground arith
outside_step k count i false = ground arith

outside_gone :
    (k count i : ℕ) (x : Bool)
    → (i ≡ k → x ≡ false)
    → not (leb (suc k) i && ltb i (suc k + count)) && x
      ≡ not (leb k i && ltb i (k + suc count)) && x
outside_gone k count i false h = ground arith
outside_gone k count i true h = ground arith

kept_beyond :
    (start last num i : ℕ)
    → ltb last num ≡ true
    → (i == num || not (leb 0 i && leb i last) && (leb start i && leb i last))
      ≡ leb num i && leb i num
kept_beyond start last num i h = ground arith

kept_within :
    (start last num i : ℕ)
    → ltb last num ≡ false
    → (i == num || not (leb num i && leb i last) && (leb start i && leb i last))
      ≡ leb (if ltb num start then num else start) i && leb i num
kept_within start last num i h = ground arith

one_more :
    (start last i : ℕ)
    → start ≤ last
    → (i == last + 1 || (leb start i && leb i last)) ≡ leb start i && leb i (last + 1)
one_more start last i h = ground arith

module _ (d : LogDirs) (laws : DirLaws d) where
  open laws use {delete_ok, exists-delete, create_ok, exists-create}

  -- The files are those numbered from `first` to `last`.
  abbrev pub Contiguous : d.Dir → ℕ → ℕ → Type 0
  Contiguous dir first last = (i : ℕ) → d.file_exists dir i ≡ leb first i && leb i last

  exists-remove_files :
      (count : ℕ) (dir : d.Dir) (k : ℕ) (s : Status) (i : ℕ)
      → d.file_exists (remove_files d count dir (pos k) s).1 i
        ≡ not (leb k i && ltb i (k + count)) && d.file_exists dir i
  unfolding remove_files
  exists-remove_files zero dir k s i = ground arith
  exists-remove_files (suc count) dir k s i = elim (Bool-cases (d.file_exists dir k)) [
    | inl there ↦
        rw (there, remove_files, delete_ok dir k)
          (exists-remove_files count (d.delete_file dir k).1 (suc k) (d.delete_file dir k).0 i
            ∙ (ap (λ x. not (leb (suc k) i && ltb i (suc k + count)) && x) (exists-delete dir k i)
                ∙ outside_step k count i (d.file_exists dir i)))
    | inr gone ↦
        rw (gone, remove_files)
          (exists-remove_files count dir (suc k) s i
            ∙ outside_gone k count i (d.file_exists dir i) (λ e. rw e gone))
  ]

  exists-remove_between :
      (dir : d.Dir) (lbound rbound i : ℕ)
      → d.file_exists (remove_between d dir (pos lbound) (pos rbound)).1 i
        ≡ not (leb lbound i && leb i rbound) && d.file_exists dir i
  unfolding remove_between
  exists-remove_between dir lbound rbound i =
      exists-remove_files (suc rbound - lbound) dir lbound ok i
      ∙ ap (λ b. not b && d.file_exists dir i) (ground arith)

  -- The files that are left, with the one that is created: below `num`, from the new start on.
  clear_old-create :
      (dir : d.Dir) (last num start i : ℕ)
      → last + 1 < 2 ^ 31
      → Contiguous dir start last
      → (i == num || d.file_exists (clear_old d dir last num start).0 i)
        ≡ leb (clear_old d dir last num start).1 i && leb i num
  unfolding clear_old
  clear_old-create dir last num start i h c = elim (Bool-cases (ltb last num)) [
    | inl beyond ↦
        rw (beyond, to_int32-small last (omega arith), exists-remove_between dir 0 last i, c i)
          (kept_beyond start last num i beyond)
    | inr within ↦
        let le : num ≤ last = not-ltb→le last num within in
        rw
          (
            within,
            to_int32-small last (omega arith),
            to_int32-small num (omega (arith, le)),
            exists-remove_between dir num last i,
            c i,
          )
          (kept_within start last num i within)
  ]

  -- `b` has the files from `start` to its own, as its directory shows, and its writer stands within
  -- a block.
  pub record IsContiguous (b : Binlog d) (start : ℕ) : Type 0 where
    pub files : Contiguous b.dir start b.version.pro_num
    pub ordered : start ≤ b.version.pro_num
    pub in_block : b.writer.block_offset ≤ block_size

  load-in_block : (f : d.files.File) → (load d.files f).block_offset ≤ block_size
  unfolding load
  load-in_block f = omega arith

  -- A new file `num` returns, with the directory's files and `num`.
  record Started (b : Binlog d) (dir : d.Dir) (num : ℕ) : Type 0 where
    binlog : Binlog d
    returned : start_file d b dir num ≡ some binlog
    there : (i : ℕ) → d.file_exists binlog.dir i ≡ (i == num || d.file_exists dir i)
    number : binlog.version.pro_num ≡ num
    start_offset : binlog.version.pro_offset ≡ 0
    in_block : binlog.writer.block_offset ≤ block_size

  start_file-Started : (b : Binlog d) (dir : d.Dir) (num : ℕ) → Started b dir num
  unfolding start_file save
  start_file-Started b dir num =
      let (f, dir', made) = create_ok dir num in
      record {
        binlog = record b { dir = dir'; version = save b.version num 0; writer = load d.files f };
        returned = rw (made, start_file);
        there = exists-create dir num made;
        number = refl;
        start_offset = refl;
        in_block = load-in_block f;
      }

  maybe_roll-IsContiguous :
      (b : Binlog d) (start : ℕ)
      → b.version.pro_num + 1 < 2 ^ 32
      → IsContiguous b start
      → (b' : Binlog d) × (maybe_roll d b ≡ some b') × IsContiguous b' start
  unfolding maybe_roll
  maybe_roll-IsContiguous b start h c =
      elim (Bool-cases (ltb b.file_size (d.files.file_size b.writer.queue))) [
        | inl full ↦
            let next : (b.version.pro_num + 1) % 2 ^ 32 ≡ b.version.pro_num + 1 = omega arith in
            let e = start_file-Started b b.dir (b.version.pro_num + 1) in
            (
              e.binlog,
              rw (full, next) e.returned,
              record {
                files = λ i.
                    e.there i
                    ∙ (ap (λ x. i == b.version.pro_num + 1 || x) (c.files i)
                        ∙ (one_more start b.version.pro_num i c.ordered
                            ∙ ap (λ (n : ℕ). leb start i && leb i n) (sym e.number)));
                ordered = omega (arith, c.ordered, e.number);
                in_block = e.in_block;
              },
            )
        | inr fits ↦ (b, rw fits, c)
      ]

  -- The operations of the binlog end like this: they return, and keep the files.
  abbrev pub Keeps : Option (Status × Binlog d) → ℕ → Type 0
  Keeps result start =
      (s : Status) × (b' : Binlog d) × (result ≡ some (s, b')) × IsContiguous b' start

  advance-IsContiguous :
      (b : Binlog d) (start : ℕ) (x : Option (Status × Writer d.files × ℕ))
      → b.version.pro_num + 1 < 2 ^ 32
      → IsContiguous b start
      → Ends d.files 0 x
      → Keeps (advance d b x) start
  unfolding advance inc
  advance-IsContiguous b start x h c e =
      let b1 : Binlog d = record b { version = inc b.version e.size; writer = e.writer } in
      let (b', made, kept) =
        maybe_roll-IsContiguous b1 start h
          (record { files = c.files; ordered = c.ordered; in_block = e.in_block }) in
      (e.status, b', rw (e.returned, advance, made), kept)

  -- Over a directory in which no file operation fails, while appends and flushes may, a Put returns
  -- and leaves the binlog files those from the first number to the current one, with the writer
  -- within its block, as long as the number does not wrap.
  pub put-IsContiguous :
      (b : Binlog d) (start : ℕ) (item : List ℕ)
      → b.version.pro_num + 1 < 2 ^ 32
      → IsContiguous b start
      → Keeps (put d b item) start
  unfolding put
  put-IsContiguous b start item h c =
      advance-IsContiguous b start (produce d.files b.writer item) h c
        (produce-Ends d.files b.writer item c.in_block)

  clear_old-start-le : (dir : d.Dir) (cur num start : ℕ) → (clear_old d dir cur num start).1 ≤ num
  unfolding clear_old
  clear_old-start-le dir cur num start = ground arith

  -- Over a directory in which no file operation fails, and from a file number below the greatest
  -- int: SetProducerStatus returns, and moving the producer to any file `num`, forwards or back,
  -- leaves no hole: the files are those from the new first number, which is at most `num`, to
  -- `num`. The version stands at `num` with offset 0, and the old position is reported.
  pub set_producer_status-IsContiguous :
      (b : Binlog d) (num offset start : ℕ)
      → b.version.pro_num + 1 < 2 ^ 31
      → IsContiguous b start
      → (b' : Binlog d) × (start' : ℕ) × (set_producer_status d b num offset start
          ≡ some (b', 0, b.version.pro_num, b.version.pro_offset, start'))
        × IsContiguous b' start'
        × (b'.version.pro_num ≡ num)
        × (b'.version.pro_offset ≡ 0)
  unfolding set_producer_status
  set_producer_status-IsContiguous b num offset start h c =
      let old = clear_old d b.dir b.version.pro_num num start in
      let e = start_file-Started b old.0 num in
      (
        e.binlog,
        old.1,
        rw (e.returned, set_producer_status),
        record {
          files = λ i.
              e.there i
              ∙ (clear_old-create b.dir b.version.pro_num num start i h c.files
                  ∙ ap (λ (n : ℕ). leb old.1 i && leb i n) (sym e.number));
          ordered = omega (arith, clear_old-start-le b.dir b.version.pro_num num start, e.number);
          in_block = e.in_block;
        },
        e.number,
        e.start_offset,
      )
