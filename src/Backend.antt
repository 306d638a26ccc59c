-- ===== src/Backend.antt =====
-- The backend: the message router and the services behind it.
pub mod Hub
mod Tests
pub mod Queue
pub mod Files
pub mod Backup
pub mod Transfer
pub mod Tree
pub mod Protocol
pub mod Download
