-- ===== src/ShellCore.antt =====
-- The functions of projects/02-rwg-server/shell_core.h that run the commands of a line.
pub mod Os
pub mod State
pub mod Execute
pub mod Line
pub mod Child
pub mod Token
pub mod Reap
pub mod Fresh
mod Tests
