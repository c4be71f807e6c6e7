-- ===== src/Device.antt =====
-- The devices of the machine but its main memory.
pub mod Clint
pub mod Uart
pub mod Control
mod Examples
