-- ===== src/Sys/Cmd.antt =====
-- src/sys/cmd.cpp and include/kotatsu/sys/cmd.h: command lines, joined from arguments and split into
-- them. Response files (`expand_view`) are not modelled.
pub mod Join
pub mod Split
pub mod Posix
pub mod Borrow
mod Tests
