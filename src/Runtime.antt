-- ===== src/Runtime.antt =====
-- pkg/runtime: the value system.
pub mod Keys
pub mod Value
pub mod Array
pub mod Heap
pub mod Host
pub mod Attribute
pub mod Truthy
pub mod Text
pub mod Compare
pub mod Iterate
pub mod Loop
pub mod Context
pub mod Scope
