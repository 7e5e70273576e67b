-- ===== src/Driver.antt =====
-- malloclab-handout/mdriver.c: the range lists, the random data, and the evaluation of a malloc
-- package on a trace.
pub mod Stats
pub mod Score
pub mod Report
pub mod Run
pub mod Libc
pub mod Main
pub mod Options
pub mod Package
pub mod RandomData
pub mod Ranges
pub mod Read
pub mod Result
pub mod Speed
pub mod Trace
pub mod Util
mod Tests
pub mod Valid
