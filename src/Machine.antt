-- ===== src/Machine.antt =====
-- `SimulatedMachine` (sim/sim.cc, sim/load.cc): the loader, the devices on one bus and the run
-- loop.
pub mod Load
pub mod Bus
pub mod Run
pub mod Start
mod Examples
