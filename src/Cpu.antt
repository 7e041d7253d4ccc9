-- ===== src/Cpu.antt =====
-- src/cpu.c: the processor's state, its register file, its addresses and its flags.
mod State
mod Registers
mod Address
mod Flags
pub mod Views
pub mod Merge
pub mod Compare
pub mod Tests
mod Banks
mod Control
mod Handlers
unfoldable pub use State.*
unfoldable pub use Registers.*
unfoldable pub use Address.*
unfoldable pub use Flags.*
unfoldable pub use Banks.*
unfoldable pub use Control.*
unfoldable pub use Handlers.*
