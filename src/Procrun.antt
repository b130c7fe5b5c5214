-- ===== src/Procrun.antt =====
-- The code that the Windows programs share, src/native/windows/src, and the service runner of
-- src/native/windows/apps/prunsrv/prunsrv.c.
pub mod Memory
pub mod MultiSz
pub mod Cmdline
pub mod Service
pub mod Commands
pub mod Hex
pub mod Control
pub mod Wildcard
pub mod Quotes
pub mod Registry
pub mod Handles
pub mod Process
pub mod Log
pub mod Browse
