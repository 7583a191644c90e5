-- ===== src/Shell.antt =====
-- projects/01-npshell: the command line of the shell, from the text of a line to the processes and
-- pipes that it asks for (shell_core.h; project 2 has the same code with a longer number token).
pub mod Command
pub mod Parse
pub mod Plan
pub mod Session
mod Tests
