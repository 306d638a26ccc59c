-- ===== src/Commands.antt =====
-- The commands of the agent, agent/internal/command.
pub mod BlockWebsite
pub mod Dispatcher
mod Tests
