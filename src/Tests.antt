-- ===== src/Tests.antt =====
-- The theorems at concrete inputs, a module for each part of the program.
pub mod Ring
pub mod Serial
pub mod Bus
pub mod Router
pub mod Slave
mod Stm
pub mod Control
pub mod Sdio
pub mod Library
