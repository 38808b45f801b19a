-- ===== src/Tests/Binlogs.antt =====
-- Runs of src/common/zp_binlog.cc in memory.
use zeppelin.Base.{ℕ, ◌-◌, ◌+◌, ◌≡◌, refl, ◌&&◌, some, List, [], ◌∷◌, length, leb, arith}
use zeppelin.Env.{ok, end_file}
use zeppelin.Binlog.Writer.{Writer, produce, append_blank, load}
use zeppelin.Binlog.Writer.Total.{Ends, produce-Ends}
use zeppelin.Binlog.Format.{header_size}
use zeppelin.Binlog.Writer.Blank.{blank_bytes, append_blank-counts}
use zeppelin.Binlog.Encoding.{gap, start}
use zeppelin.Binlog.RoundTrip.{produce_all, consume_all, consume_all-produce_all}
use zeppelin.Binlog.Log.{Binlog, put, set_producer_status}
use zeppelin.Binlog.Log.Contiguous.{
  IsContiguous, Keeps, put-IsContiguous, set_producer_status-IsContiguous,
}
use zeppelin.Tests.Instances.{memory, memory_laws, tape, tape_laws, directory, directory_laws}

abbrev two_items : List (List ℕ)
two_items = (104 ∷ 105 ∷ []) ∷ [] ∷ []

consume_all-produce_all_example :
    (r : Writer memory) × (produce_all memory (load memory []) two_items ≡ some r)
    × (consume_all tape 5 3 (record { queue = r.queue; last_record_offset = 0 })
        ≡ some (two_items, end_file))
consume_all-produce_all_example =
    consume_all-produce_all memory memory_laws tape tape_laws 5 [] two_items (λ f. f) (omega arith)
      (omega arith, (omega arith, tt)) refl (λ f. refl)

-- A writer near the end of its block.
abbrev at_end : Writer memory
at_end = record { queue = []; block_offset = 65532 }

produce-Ends_example : Ends memory 0 (produce memory at_end (104 ∷ 105 ∷ []))
produce-Ends_example = produce-Ends memory at_end (104 ∷ 105 ∷ []) (omega arith)

append_blank-counts_example :
    (r : Writer memory) × (append_blank memory at_end 20 0 ≡ some (ok, r, gap 65532 + 20))
    × (r.queue ≡ blank_bytes memory memory_laws 65532 (20 - header_size))
    × (length (blank_bytes memory memory_laws 65532 (20 - header_size)) ≡ gap 65532 + 20)
unfolding start gap
append_blank-counts_example =
    append_blank-counts memory memory_laws at_end 20 0 (omega arith) (omega arith) (ground arith)

-- A binlog with the files 1 and 2.
abbrev two_files : Binlog directory
two_files = record {
  dir = λ i. leb 1 i && leb i 2;
  file_size = 100;
  version = record { pro_num = 2; pro_offset = 40; saved_num = 2; saved_offset = 40 };
  writer = record { queue = []; block_offset = 40 };
}

two_files-IsContiguous : IsContiguous directory directory_laws two_files 1
two_files-IsContiguous = record { files = λ i. refl; ordered = omega arith; in_block = omega arith }

put-IsContiguous_example : Keeps directory directory_laws (put directory two_files (104 ∷ [])) 1
put-IsContiguous_example =
    put-IsContiguous directory directory_laws two_files 1 (104 ∷ []) (omega arith)
      two_files-IsContiguous

set_producer_status-IsContiguous_example :
    (b : Binlog directory) × (start : ℕ) × (set_producer_status directory two_files 1 0 1
      ≡ some (b, 0, 2, 40, start))
    × IsContiguous directory directory_laws b start
    × (b.version.pro_num ≡ 1)
    × (b.version.pro_offset ≡ 0)
set_producer_status-IsContiguous_example =
    set_producer_status-IsContiguous directory directory_laws two_files 1 0 1 (omega arith)
      two_files-IsContiguous
