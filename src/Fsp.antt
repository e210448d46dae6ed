-- ===== src/Fsp.antt =====
-- The session messages of crates/microfips-core/src/fsp.rs: constants, errors, the common prefix.
pub mod Build
pub mod Parse
pub mod Written
pub mod Body
pub mod RoundTrip
pub mod Panics
pub mod Msg3
pub mod Datagram
pub mod Payload
pub mod Encrypted
pub mod DataMessage
pub mod Session
mod Tests
use microfips.Base.{ℕ, ◌+◌, ◌*◌, ◌/◌, ◌%◌, ◌^◌, bit_and, bit_or, List, [], ◌∷◌}

abbrev pub fsp_version : ℕ
fsp_version = 0

abbrev pub fsp_common_prefix_size : ℕ
fsp_common_prefix_size = 4

abbrev pub node_addr_size : ℕ
node_addr_size = 16

abbrev pub phase_session_setup : ℕ
phase_session_setup = 1

abbrev pub phase_session_ack : ℕ
phase_session_ack = 2

abbrev pub phase_session_msg3 : ℕ
phase_session_msg3 = 3

pub data FspError : Type 0 where
  buffer_too_small invalid_frame invalid_coords : FspError

unfoldable pub fsp_prefix_byte : ℕ → ℕ
fsp_prefix_byte phase = bit_or (fsp_version * 16 % 256) (bit_and phase 0x0f)

unfoldable pub fsp_prefix : ℕ → ℕ → ℕ → List ℕ
fsp_prefix phase flags payload_len =
    fsp_prefix_byte phase ∷ flags ∷ payload_len % 256 ∷ payload_len / 256 % 256 ∷ []
