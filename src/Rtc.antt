-- ===== src/Rtc.antt =====
-- The OKI MSM58321 clock module of src/bus.c: its register file, its counters, its divider and its
-- pin protocol on CIO #1.
mod Counters
mod Pins
pub mod Frame
pub mod Clock
pub mod Elapsed
mod Tests
unfoldable pub use Counters.*
unfoldable pub use Pins.*
