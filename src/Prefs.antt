-- ===== src/Prefs.antt =====
-- src/rss_asset_preferences.h
pub mod IdSet
pub mod Chars
pub mod Decimal
pub mod Entries
pub mod Grammar
pub mod Parse
pub mod Build
pub mod RoundTrip
pub mod Legacy
pub mod Change
mod Tests
