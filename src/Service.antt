-- ===== src/Service.antt =====
-- agent/internal/service: what the agent does with the events of the monitor, and the synchronization
-- of the file tree with the backend.
pub mod Backups
pub mod Settle
pub mod Sync
mod Tests
