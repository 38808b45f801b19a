-- ===== src/Node.antt =====
-- The data node, src/node.
pub mod World
pub mod Partition
pub mod Roles
pub mod Steps
pub mod Sync
pub mod Serve
pub mod Purge
pub mod Sender
