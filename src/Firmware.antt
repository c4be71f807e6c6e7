-- ===== src/Firmware.antt =====
-- The firmware of the machine's level (sbi/): its printing, its traps and its environment calls.
pub mod Divide
pub mod Digits
pub mod Print
pub mod Format
pub mod Platform
pub mod Returns
pub mod Trap
pub mod Timer
pub mod Ecall
pub mod Boot
mod Examples
