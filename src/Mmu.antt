-- ===== src/Mmu.antt =====
-- src/mmu.c: the Z8010 memory management unit, with its fast-path cache, its protection ladder, its
-- violation registers and its command port.
mod State
mod Translate
mod Command
pub mod Coherence
pub mod Keep
pub mod Map
pub mod Protection
pub mod Run
mod Tests
unfoldable pub use State.*
unfoldable pub use Translate.*
unfoldable pub use Command.*
