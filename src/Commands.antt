-- ===== src/Commands.antt =====
-- The directory commands: the registry of commands and their handlers.
pub mod Table
pub mod Registry
mod Examples
