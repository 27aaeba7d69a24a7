-- ===== src/Protocol.antt =====
-- The directory protocol: RESP2 values, their encoder and their incremental parser.
pub mod RespValue
pub mod Decimal
pub mod Encoder
pub mod Parser
mod Examples
