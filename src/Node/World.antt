-- ===== src/Node/World.antt =====
-- What a partition of src/node/zp_data_partition.cc works with: its binlog as an interface, the
-- storage engine and the requests (protobuf), which are parameters, and the small records of
-- src/node/zp_data_entity.h and src/node/zp_data_partition.h. Ports are not negative.
use Prim.Native.String.{String}
use text.Mathlib.Text.{◌==◌ as str_eq}
use zeppelin.Base.{ℕ, Bool, ◌&&◌, ◌||◌, Option, List, ltb, ◌==◌}
use zeppelin.Env.{Status}

-- class Node
pub record Node : Type 0 where
  pub ip : String
  pub port : ℕ

-- operator== of Node
unfoldable pub node_eq : Node → Node → Bool
node_eq a b = str_eq a.ip b.ip && a.port == b.port

pub record BinlogOffset : Type 0 where
  pub filenum : ℕ
  pub offset : ℕ

-- operator==, operator< of BinlogOffset
abbrev pub offset_eq : BinlogOffset → BinlogOffset → Bool
offset_eq a b = a.filenum == b.filenum && a.offset == b.offset

abbrev pub offset_lt : BinlogOffset → BinlogOffset → Bool
offset_lt a b = ltb a.filenum b.filenum || (a.filenum == b.filenum && ltb a.offset b.offset)

-- A reply's status code, as far as the partition looks at it.
pub data Code : Type 0 where
  ok move wait error : Code

-- The binlog is used through these calls: GetProducerStatus, Put, PutBlank and SetProducerStatus,
-- which takes *start_num and returns the old position and the new *start_num. `none` stands for a
-- failed assert. Of a request the node knows whether its command writes or suspends others, its
-- bytes, and what GenerateLog makes of it. `run` is Cmd::Do.
pub record World : Type 1 where
  pub Log : Type 0
  pub position : Log → BinlogOffset
  pub put : Log → List ℕ → Option (Status × Log)
  pub put_blank : Log → ℕ → Option (Status × Log)
  pub set_position : Log → BinlogOffset → ℕ → Option (Log × BinlogOffset × ℕ)
  pub Db : Type 0
  pub Request : Type 0
  pub run : Request → Db → Code × Db
  pub is_write : Request → Bool
  pub raw : Request → List ℕ
  pub generate_log : Request → Option (List ℕ)
