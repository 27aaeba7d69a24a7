-- ===== src/Util.antt =====
-- The directory util: the thread pool.
pub mod ThreadPool
