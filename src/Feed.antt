-- ===== src/Feed.antt =====
-- src/market_feed.cpp and include/arb/market_feed.hpp: the messages of the venues' feeds, and the feeds
-- that keep what they say.
pub mod Loop
pub mod HlParse
pub mod LighterParse
pub mod Termination
pub mod Market
pub mod Fills
pub mod Account
pub mod Quotes
pub mod Silence
pub mod Confirm
pub mod Orders
