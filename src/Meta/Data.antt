-- ===== src/Meta/Data.antt =====
-- The records of the meta server: ZPMeta::Node, Partitions, Table and PState of
-- src/meta/zp_meta.proto, NodeOffset of src/meta/zp_meta_node_offset.h and NodeInfo of
-- src/meta/zp_meta_info_store.h. The fields of a protobuf message are taken to be set. Ports and
-- times are not negative.
use Prim.Native.String.{String}
use text.Mathlib.Text.{◌==◌ as str_eq}
use zeppelin.Base.{ℕ, ◌≡◌, Bool, false, ◌&&◌, ◌||◌, Option, none, some, List, ◌==◌}
use zeppelin.Base.Int.{ℤ, pos, int_eq, int_lt, int_ge}
use zeppelin.Base.Assoc.{lookup}
use zeppelin.Env.{Status, ok, not_found}

pub record Node : Type 0 where
  pub ip : String
  pub port : ℕ

pub data PState : Type 0 where
  active stuck slowdown : PState

pub record Partition : Type 0 where
  pub id : ℕ
  pub state : PState
  pub master : Node
  pub slaves : List Node

pub record Table : Type 0 where
  pub name : String
  pub partitions : List Partition

pub record NodeOffset : Type 0 where
  pub filenum : ℤ
  pub offset : ℤ

abbrev pub no_offset : NodeOffset
no_offset = record { filenum = pos 0; offset = pos 0 }

-- operator>=
unfoldable pub offset_ge : NodeOffset → NodeOffset → Bool
offset_ge a b =
    int_lt b.filenum a.filenum || (int_eq a.filenum b.filenum && int_ge a.offset b.offset)

-- `last_alive_time` is 0 for a node that is down.
pub record NodeInfo : Type 0 where
  pub last_alive_time : ℕ
  pub offsets : List (String × NodeOffset)

-- IsNodeEmpty
unfoldable pub is_node_empty : Node → Bool
is_node_empty n = str_eq n.ip "" || n.port == 0

-- What the code takes of slash and of the C library: IpPortString, ParseIpPortString and the
-- snprintf of NodeOffsetKey. An address that was printed is parsed back.
pub record Formats : Type 0 where
  pub ip_port : Node → String
  pub parse : String → Option Node
  pub offset_key : String → ℕ → String
  pub parse-ip_port : (n : Node) → is_node_empty n ≡ false → parse (ip_port n) ≡ some n

-- A node with no field set, and what AssignPbNode makes of a new one.
abbrev pub empty_node : Node
empty_node = record { ip = ""; port = 0 }

module _ (fm : Formats) where
  -- IsSameNode
  unfoldable pub is_same_node : Node → String → Bool
  is_same_node n ip_port = str_eq (fm.ip_port n) ip_port

  -- AssignPbNode on a new node: an address that cannot be parsed leaves it as it is.
  unfoldable pub assign_pb_node : String → Node
  assign_pb_node ip_port = elim (fm.parse ip_port) [ none ↦ empty_node | some n ↦ n ]

  -- NodeInfo::GetOffset; *noffset is left alone where it fails.
  unfoldable pub get_offset : NodeInfo → String → ℕ → NodeOffset → Status × NodeOffset
  get_offset i table partition_id noffset =
      elim (lookup (fm.offset_key table partition_id) i.offsets) [
        | none ↦ (not_found, noffset)
        | some o ↦ (ok, o)
      ]
