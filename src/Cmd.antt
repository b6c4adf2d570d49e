-- ===== src/Cmd.antt =====
-- server/cmd: the commands that put the parts together.
pub mod Rgsd
pub mod Replayd
pub mod Roundd
