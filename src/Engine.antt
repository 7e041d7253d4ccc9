-- ===== src/Engine.antt =====
-- The processor at work in src/cpu.c, on the whole machine: memory accesses, the handlers of the
-- instruction classes, interrupts and the step.
mod State
mod Controller
mod Access
mod Unified
mod Stack
mod Product
mod System
mod Block
mod Execute
mod Interrupt
mod Step
pub mod Keeps
pub mod AccessKeeps
pub mod HandlerKeeps
pub mod BlockKeeps
pub mod ExecuteKeeps
pub mod Confined
pub mod Confinement
pub mod User
pub mod Quotient
pub mod Dram
pub mod Transfer
pub mod Priority
pub mod Count
pub mod Repeat
pub mod Multiply
mod Tests
unfoldable pub use State.*
unfoldable pub use Controller.*
unfoldable pub use Access.*
unfoldable pub use Unified.*
unfoldable pub use Stack.*
unfoldable pub use Product.*
unfoldable pub use System.*
unfoldable pub use Block.*
unfoldable pub use Execute.*
unfoldable pub use Interrupt.*
unfoldable pub use Step.*
