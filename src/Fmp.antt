-- ===== src/Fmp.antt =====
-- The FMP link-layer frames of crates/fips-fmp/src/lib.rs: the constants, the common prefix and the
-- message type. The feature `noise-xx` chooses the wire, and with it the version.
pub mod Build
pub mod Parse
pub mod Header
pub mod Prefix
pub mod Total
pub mod RoundTrip
pub mod Views
pub mod Probe
pub mod Sound
mod Tests
use microfips.Base.{ℕ, ◌+◌, ◌*◌, ◌/◌, ◌%◌, bit_and, bit_or, List, [], ◌∷◌, length, ltb, ◌!=◌}
use microfips.Base.{if◌then◌else◌}
use microfips.Bytes.{from_le}
use microfips.Exec.{Exec, ok, err, Absent, absent, index, ◌>>=◌}

-- The wire: Noise IK and XK by default, Noise XX under the feature `noise-xx`.
pub data Wire : Type 0 where
  ik xx : Wire

abbrev pub fmp_version : Wire → ℕ
fmp_version ik = 0
fmp_version xx = 1

abbrev pub common_prefix_size : ℕ
common_prefix_size = 4

abbrev pub idx_size : ℕ
idx_size = 4

abbrev pub established_header_size : ℕ
established_header_size = 16

abbrev pub inner_header_size : ℕ
inner_header_size = 5

abbrev pub phase_established : ℕ
phase_established = 0

abbrev pub phase_msg1 : ℕ
phase_msg1 = 1

abbrev pub phase_msg2 : ℕ
phase_msg2 = 2

abbrev pub phase_msg3 : ℕ
phase_msg3 = 3

-- `FmpMessage`; a session index is its `u32`.
pub data FmpMessage : Type 0 where
  msg1 : (sender_idx : ℕ) (noise_payload : List ℕ) → FmpMessage
  msg2 : (sender_idx receiver_idx : ℕ) (noise_payload : List ℕ) → FmpMessage
  msg3 : (sender_idx receiver_idx : ℕ) (noise_payload : List ℕ) → FmpMessage
  established : (receiver_idx counter : ℕ) (encrypted : List ℕ) → FmpMessage

-- `CommonPrefix::ver_phase_byte`, on `u8`
unfoldable pub ver_phase_byte : ℕ → ℕ → ℕ
ver_phase_byte version phase = bit_or (version * 16 % 256) (bit_and phase 0x0f)

unfoldable pub build_prefix : Wire → ℕ → ℕ → ℕ → List ℕ
unfolding ver_phase_byte
build_prefix wire phase flags payload_len =
    ver_phase_byte (fmp_version wire) phase
    ∷ flags
    ∷ payload_len % 256
    ∷ payload_len / 256 % 256
    ∷ []

pub record CommonPrefix : Type 0 where
  pub version : ℕ
  pub phase : ℕ
  pub flags : ℕ
  pub payload_len : ℕ

-- `CommonPrefix::parse`
unfoldable pub parse_common_prefix : List ℕ → Exec Absent CommonPrefix
parse_common_prefix buf = if ltb (length buf) common_prefix_size then err absent else (do
  ver_phase ← index buf 0
  flags ← index buf 1
  low ← index buf 2
  high ← index buf 3
  ok (record {
    version = ver_phase / 16;
    phase = bit_and ver_phase 0x0f;
    flags = flags;
    payload_len = from_le (low ∷ high ∷ []);
  }))

-- `parse_prefix`: phase, flags and payload length, of a frame of this version.
unfoldable pub parse_prefix : Wire → List ℕ → Exec Absent (ℕ × ℕ × ℕ)
parse_prefix wire buf = if ltb (length buf) common_prefix_size then err absent else (do
  ver_phase ← index buf 0
  flags ← index buf 1
  low ← index buf 2
  high ← index buf 3
  if ver_phase / 16 != fmp_version wire
      then err absent
      else ok (bit_and ver_phase 0x0f, flags, from_le (low ∷ high ∷ [])))
