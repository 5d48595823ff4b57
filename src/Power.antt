-- ===== src/Power.antt =====
-- Power sharing: the two allocators, of the power module and of the stations module.
pub mod Allocation
pub mod Engine
mod Tests
