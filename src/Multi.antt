-- ===== src/Multi.antt =====
-- projects/02-rwg-server/np_multi_proc.cpp: one process for each client, over a shared memory.
pub mod Shared
pub mod Process
pub mod Users
pub mod Messages
pub mod Builtins
pub mod Pipes
pub mod Line
pub mod Section
pub mod Lock
pub mod Directory
mod Tests
