-- ===== src/Server.antt =====
-- The directory server: its counters, its connections and its event loop.
pub mod Stats
pub mod Connection
pub mod Traffic
pub mod Loop
pub mod Round
pub mod Order
pub mod Limit
pub mod Examples
