-- ===== src/Args.antt =====
-- The contexts of a kernel's arguments, csrc/runtime/inject_helpers/ArgsHandleContext.cpp,
-- ArgsRawContext.cpp and ArgsManager.cpp: one child for each.
pub mod Handle
pub mod Raw
pub mod Manager
pub mod Array
pub mod Launch
mod Tests
