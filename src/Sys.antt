-- ===== src/Sys.antt =====
-- src/sys: what the library does with the system's command lines.
pub mod Cmd
