-- ===== src/Cpu.antt =====
-- kmod/cpu.c: the topology spec, capacities and slice scaling.
pub mod Slice
pub mod Mask
pub mod Topo
pub mod Key
pub mod Spec
pub mod Boot
mod Tests
