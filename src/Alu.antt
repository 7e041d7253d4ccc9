-- ===== src/Alu.antt =====
-- src/alu.c: the Z8000 arithmetic and logic unit. Every operation returns the value, the flags
-- that it computed and the mask of the flags that it affects.
mod Defs
mod Carry
pub mod Adder
pub mod Sum
pub mod Difference
mod Tests
mod Unary
mod Shift
mod Rotate
mod Exec
pub mod Masks
unfoldable pub use Defs.*
unfoldable pub use Carry.*
unfoldable pub use Unary.*
unfoldable pub use Shift.*
unfoldable pub use Rotate.*
unfoldable pub use Exec.*
