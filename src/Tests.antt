-- ===== src/Tests.antt =====
-- The development's definitions and theorems on concrete inputs, by component.
pub mod Data
pub mod Tables
pub mod Texts
pub mod Rules
pub mod Calls
pub mod Loops
pub mod Control
pub mod Load
pub mod Threads
pub mod Bindings
pub mod Sessions
