-- ===== src/Execve.antt =====
-- What execve/ does before a program is started: the scripts with a #! line.
pub mod Shebang
pub mod Expand
