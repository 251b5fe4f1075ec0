-- ===== src/Desktop/Order.antt =====
-- The stacking order of src/desktop.c as a list of window ids, backmost first.
pub mod Spec
pub mod Raise
pub mod Allocate
pub mod Added
pub mod Open
pub mod Counting
pub mod Capacity
pub mod Removed
pub mod Destroy
