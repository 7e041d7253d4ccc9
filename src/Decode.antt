-- ===== src/Decode.antt =====
-- The instruction decoder, src/decode.c.
mod Slot
mod Registers
mod Memory
mod Control
mod Tables
mod PortTable
mod ShiftTable
mod BlockTable
mod Refine
mod Length
mod Lookup
pub mod Check
pub mod Words
mod Tests
unfoldable pub use Slot.*
unfoldable pub use Refine.*
unfoldable pub use Length.*
unfoldable pub use Lookup.*
