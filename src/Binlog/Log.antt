-- ===== src/Binlog/Log.antt =====
-- class Binlog of src/common/zp_binlog.cc. Files are named by their number: NewFileName is the prefix
-- and the decimal number. The mutex is left out: each operation is one step. `none` stands for a
-- failed assert, which a file that cannot be created leads to.
pub mod Contiguous
use zeppelin.Base.{
  ℕ, zero, suc, ◌+◌, ◌-◌, ◌%◌, ◌^◌, Bool, true, false, Option, none, some, List, ltb, if◌then◌else◌,
}
use zeppelin.Base.Int.{ℤ, pos, to_int32, to_uint32, int_suc, span}
use zeppelin.Env.{Status, ok, is_ok, WritableFiles}
use zeppelin.Binlog.Writer.{Writer, load, produce, append_blank}
use zeppelin.Binlog.Version.{Version, stable_load, save, inc}

-- The directory of a binlog, of slash: `create` is NewWritableFile, with no file where it fails,
-- `append_to` is AppendWritableFile, and `new_manifest` is NewRWFile on the manifest.
pub record LogDirs : Type 1 where
  pub files : WritableFiles
  pub Dir : Type 0
  pub file_exists : Dir → ℕ → Bool
  pub delete_file : Dir → ℕ → Status × Dir
  pub create : Dir → ℕ → Option (files.File × Dir)
  pub new_manifest : Dir → Status
  pub append_to : Dir → ℕ → ℕ → Status × files.File

pub record Binlog (d : LogDirs) : Type 0 where
  pub dir : d.Dir
  pub file_size : ℕ
  pub version : Version
  pub writer : Writer d.files

module _ (d : LogDirs) where
  -- A new BinlogWriter on the file `num`, and the version saved with `offset` in it.
  unfoldable pub start_file : Binlog d → d.Dir → ℕ → Option (Binlog d)
  start_file b dir num = elim (d.create dir num) [
    | none ↦ none
    | some (f, dir') ↦
        some (record b { dir = dir'; version = save b.version num 0; writer = load d.files f })
  ]

  -- MaybeRoll
  unfoldable pub maybe_roll : Binlog d → Option (Binlog d)
  maybe_roll b =
      if ltb b.file_size (d.files.file_size b.writer.queue)
      then start_file b b.dir ((b.version.pro_num + 1) % 2 ^ 32)
      else some b

  -- The end of Put and PutBlank: the writer's result, then Inc and MaybeRoll.
  unfoldable pub advance :
      Binlog d → Option (Status × Writer d.files × ℕ) → Option (Status × Binlog d)
  advance b none = none
  advance b (some (s, r, go_ahead)) =
      elim (maybe_roll (record b { version = inc b.version go_ahead; writer = r })) [
        | none ↦ none
        | some b' ↦ some (s, b')
      ]

  -- Put
  unfoldable pub put : Binlog d → List ℕ → Option (Status × Binlog d)
  put b item = advance b (produce d.files b.writer item)

  -- PutBlank
  unfoldable pub put_blank : Binlog d → ℕ → Option (Status × Binlog d)
  put_blank b len = advance b (append_blank d.files b.writer len 0)

  -- The loop of RemoveBetween over the `count` numbers from the int `i` on, with the status so far.
  -- NewFileName takes a uint32_t.
  unfoldable pub remove_files : ℕ → d.Dir → ℤ → Status → Status × d.Dir
  remove_files zero dir i s = (s, dir)
  remove_files (suc count) dir i s = elim (d.file_exists dir (to_uint32 i)) [
    | true ↦ elim (is_ok (d.delete_file dir (to_uint32 i)).0) [
      | true ↦
          remove_files count (d.delete_file dir (to_uint32 i)).1 (int_suc i)
            (d.delete_file dir (to_uint32 i)).0
      | false ↦ d.delete_file dir (to_uint32 i)
    ]
    | false ↦ remove_files count dir (int_suc i) s
  ]

  -- RemoveBetween. The source's loop overflows where rbound is the greatest int.
  unfoldable pub remove_between : d.Dir → ℤ → ℤ → Status × d.Dir
  remove_between dir lbound rbound = remove_files (span lbound rbound) dir lbound ok

  -- What SetProducerStatus does to the old files, and *start_num. No status is looked at. The file
  -- numbers become int in the calls.
  unfoldable pub clear_old : d.Dir → ℕ → ℕ → ℕ → d.Dir × ℕ
  clear_old dir cur_num pro_num start_num =
      if ltb cur_num pro_num
      then ((remove_between dir (pos 0) (to_int32 cur_num)).1, pro_num)
      else (
        (remove_between dir (to_int32 pro_num) (to_int32 cur_num)).1,
        if ltb pro_num start_num then pro_num else start_num,
      )

  -- SetProducerStatus: the binlog, *actual_offset, *cur_num, *cur_offset and *start_num. It returns OK.
  unfoldable pub set_producer_status : Binlog d → ℕ → ℕ → ℕ → Option (Binlog d × ℕ × ℕ × ℕ × ℕ)
  set_producer_status b pro_num pro_offset start_num =
      let (dir, start_num') = clear_old b.dir b.version.pro_num pro_num start_num in
      elim (start_file b dir pro_num) [
        | none ↦ none
        | some b' ↦ some (b', 0, b.version.pro_num, b.version.pro_offset, start_num')
      ]

  -- Init, and Create, which drops the object where Init fails; `manifest` is what the manifest
  -- holds, if it exists. A new one holds zeros.
  unfoldable pub init : d.Dir → ℕ → Option (ℕ × ℕ) → Status × Option (Binlog d)
  init dir size none = elim (is_ok (d.new_manifest dir)) [
    | false ↦ (d.new_manifest dir, none)
    | true ↦ elim (d.create dir 0) [
      | none ↦ (Status.io_error, none)
      | some (f, dir') ↦ (
        ok,
        some (record {
          dir = dir';
          file_size = size;
          version = stable_load 0 0;
          writer = load d.files f;
        }),
      )
    ]
  ]
  init dir size (some (num, offset)) = elim (is_ok (d.new_manifest dir)) [
    | false ↦ (d.new_manifest dir, none)
    | true ↦ elim (is_ok (d.append_to dir num offset).0) [
      | false ↦ ((d.append_to dir num offset).0, none)
      | true ↦ (
        ok,
        some (record {
          dir = dir;
          file_size = size;
          version = stable_load num offset;
          writer = load d.files (d.append_to dir num offset).1;
        }),
      )
    ]
  ]
