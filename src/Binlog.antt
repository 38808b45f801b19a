-- ===== src/Binlog.antt =====
-- The binlog of src/common/zp_binlog.cc and include/zp_binlog.h.
pub mod Format
pub mod Writer
pub mod Reader
pub mod Encoding
pub mod RoundTrip
pub mod Version
pub mod Log
