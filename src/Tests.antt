-- ===== src/Tests.antt =====
-- Concrete files, directories, addresses and binlogs, and the theorems at concrete inputs.
mod Instances
mod Binlogs
mod Metas
mod Nodes
mod Migrates
mod Updates
mod Elections
mod Replicas
mod Senders
