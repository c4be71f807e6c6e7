-- ===== src/Hart.antt =====
-- The functional simulator, `TraceSimDriver` of sim/trace.cc and sim/include/trace.hh.
pub mod Status
pub mod State
pub mod Csr
pub mod Valid
pub mod Trap
pub mod Encode
pub mod Immediate
pub mod Alu
pub mod Exec
pub mod Translate
pub mod Access
pub mod Execute
pub mod Cycle
mod Examples
