-- ===== src/Msgpack.antt =====
-- include/arb/msgpack.hpp, src/msgpack.cpp: the writer of the MessagePack bytes that are hashed into
-- a Hyperliquid signature, and a reader of that format to hold it against.
pub mod Bytes
pub mod Pack
pub mod Unpack
pub mod Tags
pub mod RoundTrip
pub mod Message
