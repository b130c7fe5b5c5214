-- ===== src/Procrun/Process.antt =====
-- The child processes of src/native/windows/src/rprocess.c.
pub mod Streams
pub mod Arguments
pub mod Running
pub mod Tests
