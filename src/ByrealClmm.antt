-- ===== src/ByrealClmm.antt =====
-- The venue of src/byreal_clmm: its core state (core.rs) and the tick arrays and instructions made of it.
pub mod Library
pub mod Core
pub mod TickArray
pub mod TickArrays
pub mod Build
pub mod Update
pub mod Keys
pub mod Navigate
pub mod Swap
pub mod Quote
pub mod Venue
pub mod Trade
pub mod Implementation
pub mod Creation
pub mod Tests
