-- ===== src/Apic.antt =====
-- kernel/src/cpu/apic.rs: the local APIC that the SVSM emulates for the guest. `Vectors` has the
-- 256-bit registers, `State` the structure and what it acts on, `Service` the in-service stack and
-- end of interrupt, `Post` posting and inter-processor interrupts, `Present` the presentation of
-- interrupts to the guest, `Access` the register reads and writes and `Host` the exchange with the
-- hypervisor's doorbell page. `Inv` has the invariant of the structure; `Eoi`, `Delivery`, `Rewind`,
-- `Ipi` and `Doorbell` have the theorems.
pub mod Vectors
pub mod State
pub mod Service
pub mod Post
pub mod Present
pub mod Access
pub mod Inv
pub mod Eoi
pub mod Delivery
pub mod Ipi
pub mod Signals
mod Tests
pub mod Rewind
pub mod Host
pub mod Posting
pub mod Doorbell
