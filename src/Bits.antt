-- ===== src/Bits.antt =====
-- Machine words as native numbers: bits, masks and the operations of Rust's unsigned integers.
mod Step
mod Xor
mod Words
mod Counts
mod Masks
mod Single
unfoldable pub use Step.*
unfoldable pub use Xor.*
unfoldable pub use Words.*
unfoldable pub use Counts.*
unfoldable pub use Masks.*
unfoldable pub use Single.*
