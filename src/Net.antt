-- ===== src/Net.antt =====
-- The directory net: what the server sees of a socket.
pub mod Socket
