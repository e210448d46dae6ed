-- ===== src/EspNow.antt =====
-- How FMP frames travel over ESP-NOW, whose payloads are at most 250 bytes: the fragments of
-- crates/microfips-esp-common/src/espnow_frag.rs, the slot of the one peer of espnow_peer.rs, and
-- the task of crates/microfips-esp-transport/src/espnow_gateway.rs that puts them together.
pub mod Frag
pub mod Reassembly
pub mod Pieces
pub mod RoundTrip
pub mod Integrity
pub mod Mac
pub mod Peer
pub mod Sticky
pub mod Gateway
mod Tests
