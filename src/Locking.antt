-- ===== src/Locking.antt =====
-- kernel/src/locking: the locks of the kernel, as threads that take one atomic step at a time.
pub mod Threads
pub mod SpinLock
pub mod SpinInv
pub mod SpinSafety
pub mod SpinRuns
pub mod SpinProgress
pub mod RwLock
pub mod RwWord
pub mod RwInv
pub mod RwMoves
pub mod RwSteps
pub mod RwSafety
mod Tests
