-- ===== src/Clock.antt =====
-- The clock driver, QSD8250Pkg/GPLDrivers/ClockDxe/ClockDxe.c, over the calls of Pcom. The children
-- are the rate tables, the processor clock, acpuclock.c, and what holds of them.
pub mod Speed
pub mod Table
pub mod Acpu
