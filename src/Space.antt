-- ===== src/Space.antt =====
-- The physical address space: `AddressRange` and `PhysicalAddressSpace` of sim/as.cc and
-- sim/include/as.hh, and `MainMemory` of sim/mem.cc.
pub mod Range
pub mod Memory
pub mod Dispatch
pub mod Call
pub mod Block
mod Examples
