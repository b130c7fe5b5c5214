-- ===== src/Daemon.antt =====
-- src/native/unix/native/jsvc-unix.c: the launcher, the controller that watches over the child, and the
-- child that runs the JVM.
pub mod Kernel
pub mod Directories
pub mod PidFile
pub mod Signals
pub mod Controller
pub mod Child
pub mod Wait
mod Tests
pub mod Users
pub mod Output
pub mod Main
pub mod Logger
