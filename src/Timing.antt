-- ===== src/Timing.antt =====
-- malloclab-handout/clock.c and fcyc.c: reading the cycle counter, and the K-best scheme.
pub mod Cache
pub mod Clock
pub mod Compensated
pub mod Intervals
pub mod Seconds
pub mod Fcyc
mod Tests
