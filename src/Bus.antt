-- ===== src/Bus.antt =====
-- The machine's side of the bus in src/bus.c: physical memory, the serial chips, the I/O dispatch, and
-- the marks and the park that the run loop watches for.
pub mod Memory
mod Mark
mod Scc
mod Console
mod Io
mod Park
mod Ports
mod Border
pub mod Tests
pub mod Decode
pub mod Search
pub mod Registers
pub mod Receive
pub mod Dispatch
pub mod Parked
unfoldable pub use Memory.*
unfoldable pub use Mark.*
unfoldable pub use Scc.*
unfoldable pub use Console.*
unfoldable pub use Io.*
unfoldable pub use Park.*
