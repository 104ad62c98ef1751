-- ===== src/TradingVenue.antt =====
-- The venue interface: trading_venue/mod.rs, with the errors of trading_venue/error.rs, the mints of
-- trading_venue/token_info.rs and the search for bounds of trading_venue/bounds.rs in the children.
pub mod Error
pub mod Request
pub mod TokenInfo
pub mod Interface
pub mod Bounds
