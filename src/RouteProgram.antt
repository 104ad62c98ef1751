-- ===== src/RouteProgram.antt =====
-- The on-chain route program: program/programs/byreal-titan-venue-program/src.
pub mod State
pub mod Runtime
pub mod Accounts
pub mod Bitmap
pub mod Calls
pub mod Route
pub mod Execute
pub mod Tests
