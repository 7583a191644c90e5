-- ===== src/Rwg.antt =====
-- The remote working ground of project 2 with a single process: np_single_proc.cpp.
pub mod Clients
pub mod Server
pub mod Pipes
pub mod Parse
pub mod Builtins
pub mod Run
pub mod Input
mod Tests
