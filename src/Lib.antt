-- ===== src/Lib.antt =====
-- The microfips leaf node: a Rust workspace that speaks the FIPS mesh protocol from microcontrollers.
--
-- A link between two peers is set up by a Noise handshake, carried in FMP frames, and then carries
-- established frames, each encrypted with an AEAD cipher at a counter that a replay window guards.
--
-- Base, Bits, Bytes   helpers: lists, Boolean tests, digits of numbers, little-endian integers.
-- Exec                a value, an error or a panic, and Rust's indexing and slicing with their panics.
-- Replay              crates/fips-noise/src/replay.rs: `ReplayWindow` and its operations. The bitmap is
--                     a list of 32 words; the width of `usize` is the parameter `width`.
-- Noise               crates/fips-noise/src/lib.rs: `aead_encrypt` and `aead_decrypt`, and the initiators and
--                     responders of the handshakes IK, XK and XX, each with `Handshake`, its messages
--                     in their order. Noise/Symmetric holds the four fields `h`, `ck`, `k` and `n` that all
--                     six structs share. The crates sha2, hkdf, k256 and chacha20poly1305 are the
--                     parameter `Crypto`, and `IsCrypto` is what they document. Noise/ToyCrypto is an
--                     instance to try hypotheses with. Noise/Calls is the calls of the XX methods
--                     in any order.
-- Fmp                 crates/fips-fmp/src/lib.rs: builders and parsers of frames, for both wires (`ik`,
--                     and `xx` under the feature noise-xx).
-- Negotiation         crates/fips-fmp/src/negotiation.rs: the payload that the Noise XX handshake carries.
-- Fsp                 crates/microfips-core/src/fsp.rs: builders and parsers of session messages.
--                     Fsp/Session: `FspSession`, `FspInitiatorSession` and `handle_fsp_datagram`, over
--                     records of what a session calls of the handshake; Fsp/Session/Xk and Xx fill
--                     them for the two builds, without and with the feature noise-xx.
-- Link                crates/microfips-protocol/src/node.rs, `decrypt_established_frame`, and
--                     crates/fips-fmp/src/lib.rs, `encrypt_and_assemble`: the two ends of a link.
-- Backoff             crates/microfips-esp-transport/src/backoff.rs: `L2capBackoff`, over ticks.
-- RateLimit           crates/microfips-esp-transport/src/rate_limit.rs: `SendRateLimiter`, over ticks.
-- EspNow              crates/microfips-esp-common/src/espnow_frag.rs and espnow_peer.rs: fragments,
--                     reassemblers, and the slot of the one peer. EspNow/Gateway: the radio to host
--                     task of crates/microfips-esp-transport/src/espnow_gateway.rs, which
--                     observes the source of a frame, keeps the radio's table of peers and reassembles.
--                     The manager of the crate esp_radio is the parameter `Manager`, and `Documented` is
--                     what it documents.
-- Dhcp                crates/microfips-esp-common/src/dhcp_server.rs: `DhcpServer`, its parser of requests,
--                     its leases and its replies.
-- Policy              crates/microfips-protocol/src/peer_policy.rs: `PeerPolicy`, over ticks. Policy/Run:
--                     the loop `run` of crates/microfips-protocol/src/node.rs, over the results of its
--                     sessions.
-- Hex                 crates/microfips-core/src/hex.rs: the parser and the encoder.
-- Shim                crates/microfips-core/src/ipv6_shim.rs: the answer to an ICMPv6 echo request.
--
-- State is passed explicitly: an operation takes the window or the buffer and gives it as it leaves it.
-- A `None` is `err absent`. Bytes and machine integers are natural numbers, with the wrap-around of
-- casts and shifts written out; `IsBytes` says where elements are bytes. Recursion is structural, but
-- for four loops on fuel. The TLV loop of Negotiation has the number of bytes left. The options of a
-- DHCP packet have the bytes of the packet and one. A sender has ten calls for the fragments of a
-- message, of which 2048 bytes need nine and the end of the loop one.
-- The carries of a checksum are folded in three rounds, since the sum is below 3 * 2 ^ 16.
--
-- Where a call with `&mut self` fails, the object stays as the call left it; a buffer of which nothing
-- is read after an error is not kept. Private keys that drop are modelled by `zeroize_keys`.
--
-- Not modelled: logging; the asynchronous I/O of transports, the rest of the node loop and the firmware
-- around them, which wait for devices; MMP metrics; mDNS packets;
-- the FSP handler with its timers; the host tools.
pub mod Base
pub mod Bits
pub mod Bytes
pub mod Exec
pub mod Replay
pub mod Noise
pub mod Fmp
pub mod Negotiation
pub mod Backoff
pub mod RateLimit
pub mod Link
pub mod Fsp
pub mod EspNow
pub mod Dhcp
pub mod Policy
pub mod Hex
pub mod Shim
