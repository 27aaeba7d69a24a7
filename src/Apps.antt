-- ===== src/Apps.antt =====
-- The directory apps: the command line client and the server's main function.
pub mod Cli
pub mod Main
pub mod Examples
