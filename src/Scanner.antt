-- ===== src/Scanner.antt =====
-- near/blockscanner.go, the part that scans.
pub mod Extract
pub mod Notify
pub mod Channels
pub mod Scan
pub mod Rescan
pub mod Control
