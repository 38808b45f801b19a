-- ===== src/Binlog/Version.antt =====
-- Version of src/common/zp_binlog.cc: the producer's position, kept in memory and in the mapped
-- manifest file. The locks and the debug output are left out.
use zeppelin.Base.{ℕ, ◌+◌, ◌%◌, ◌^◌}

-- `saved_num` and `saved_offset` are what the manifest holds.
pub record Version : Type 0 where
  pub pro_num : ℕ
  pub pro_offset : ℕ
  pub saved_num : ℕ
  pub saved_offset : ℕ

-- StableSave
pub stable_save : Version → Version
stable_save v = record v { saved_num = v.pro_num; saved_offset = v.pro_offset }

-- StableLoad, as the constructor calls it on a manifest that is mapped.
unfoldable pub stable_load : ℕ → ℕ → Version
stable_load num offset = record {
  pro_num = num;
  pro_offset = offset;
  saved_num = num;
  saved_offset = offset;
}

-- Save
unfoldable pub save : Version → ℕ → ℕ → Version
unfolding stable_save
save v num offset = stable_save (record v { pro_num = num; pro_offset = offset })

-- Inc: an addition of uint64_t.
unfoldable pub inc : Version → ℕ → Version
unfolding stable_save
inc v go_head = stable_save (record v { pro_offset = (v.pro_offset + go_head) % 2 ^ 64 })
