-- ===== src/Bitmap.antt =====
-- kernel/src/utils/bitmap_allocator.rs. The trait `BitmapAllocator` is a record of operations over a
-- state; `BitmapAllocator64` and the tree (`Tree`) implement it, and `alloc_aligned` (`Alloc`) is
-- written against it. A call returns the new state; a failed `assert!` is `panic`. Indices are added
-- exactly: a sum beyond `usize` fails the assertion that reads it.
pub mod Interface
pub mod Word
pub mod Tree
pub mod Alloc
mod Tests
