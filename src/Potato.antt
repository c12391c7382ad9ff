-- ===== src/Potato.antt =====
-- The hot potato of Assignment-3/P3/Assignment_3_Backup/Assignment-3/P3/hotpotato.
pub mod Master
pub mod Player
pub mod Game
pub mod Ring
pub mod Trace
pub mod Endless
pub mod Party
mod Tests
