-- ===== src/Maintenance.antt =====
-- internal/maintenance: the housekeeping of the tables: keys that expire, partitions that are
-- made ahead of time and partitions that are retired.
pub mod Expiry
pub mod Retire
pub mod Partitions
