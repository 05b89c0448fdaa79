-- ===== src/Tests.antt =====
-- Concrete runs of the library's theorems.
pub mod Data
mod Bytes
mod Commands
mod Editing
mod Effects
mod Expressions
mod Lists
mod Parsed
mod Presets
mod Retired
mod Source
mod Storage
mod Ticks
