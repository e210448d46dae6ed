-- ===== src/Fmp/Views.antt =====
-- The header views of crates/fips-fmp/src/lib.rs of the handshake messages: `Msg1Header`, `Msg2Header`
-- and `Msg3Header`.
use microfips.Base.{
  ℕ, ◌+◌, ◌^◌, ◌≤◌, ◌<◌, List, ◌++◌, length, ltb, ◌==◌, ◌!=◌, not, if◌then◌else◌, ◌≡◌, refl, arith,
  le→ltb, true, ==_iff,
}
use microfips.Bytes.{le_bytes}
use microfips.Exec.{Exec, ok, err, Absent, absent, read_le, ◌>>=◌}
use microfips.Exec.Laws.{read_le-append}
use microfips.Fmp.{Wire, build_prefix, parse_prefix, phase_msg1, phase_msg2, phase_msg3}
use microfips.Fmp.Build.{as_u16, build_msg1, build_msg2, build_msg3, build_indexed}
use microfips.Fmp.Header.{
  msg1_wire_size, msg2_wire_size, msg3_wire_size, handshake_msg1_size, handshake_msg2_size,
  handshake_msg3_size,
}
use microfips.Fmp.Prefix.{parse_prefix-build_prefix}
use microfips.Fmp.RoundTrip.{msg1_bytes, indexed_bytes, build_msg1_lem, build_indexed_lem, Wrote}

pub record Msg1Header : Type 0 where
  pub sender_idx : ℕ
  pub noise_msg1_offset : ℕ

pub record Msg2Header : Type 0 where
  pub sender_idx : ℕ
  pub receiver_idx : ℕ
  pub noise_msg2_offset : ℕ

pub record Msg3Header : Type 0 where
  pub sender_idx : ℕ
  pub receiver_idx : ℕ
  pub noise_msg3_offset : ℕ

unfoldable pub parse_msg1_header : Wire → List ℕ → Exec Absent Msg1Header
parse_msg1_header wire buf = if not (length buf == msg1_wire_size wire) then err absent else (do
  (phase, flags, payload_len) ← parse_prefix wire buf
  if flags != 0 then err absent else (do
    sender_idx ← read_le buf 4 8
    ok (record { sender_idx = sender_idx; noise_msg1_offset = 8 })))

unfoldable pub parse_msg2_header : Wire → List ℕ → Exec Absent Msg2Header
parse_msg2_header wire buf = if ltb (length buf) (msg2_wire_size wire) then err absent else (do
  (phase, flags, payload_len) ← parse_prefix wire buf
  if flags != 0 then err absent else (do
    sender_idx ← read_le buf 4 8
    receiver_idx ← read_le buf 8 12
    ok (record { sender_idx = sender_idx; receiver_idx = receiver_idx; noise_msg2_offset = 12 })))

unfoldable pub parse_msg3_header : Wire → List ℕ → Exec Absent Msg3Header
parse_msg3_header wire buf = if ltb (length buf) (msg3_wire_size wire) then err absent else (do
  (phase, flags, payload_len) ← parse_prefix wire buf
  if flags != 0 then err absent else (do
    sender_idx ← read_le buf 4 8
    receiver_idx ← read_le buf 8 12
    ok (record { sender_idx = sender_idx; receiver_idx = receiver_idx; noise_msg3_offset = 12 })))

-- `built` writes a frame at the front of `out`, and the view of its bytes gives this header.
abbrev pub Shows {ℓ} :
    {A : Type ℓ} → Exec Absent (ℕ × List ℕ) → List ℕ → (view : List ℕ → Exec Absent A) → A → Type ℓ
Shows built out view header = (bytes : List ℕ) × Wrote built out bytes × (view bytes ≡ ok header)

msg1_view :
    (wire : Wire) (sender_idx : ℕ) (noise : List ℕ)
    → sender_idx < 2 ^ 32
    → length noise ≡ handshake_msg1_size wire
    → parse_msg1_header wire (msg1_bytes wire sender_idx noise)
      ≡ ok (record { sender_idx = sender_idx; noise_msg1_offset = 8 })
unfolding parse_msg1_header build_prefix
msg1_view wire sender_idx noise fits_s size =
    let payload_len = as_u16 (4 + length noise) in
    let whole : length (msg1_bytes wire sender_idx noise) ≡ msg1_wire_size wire = omega arith in
    let same : (msg1_wire_size wire == msg1_wire_size wire) ≡ true = (==_iff _ _).1 refl in
    rw (
      whole,
      same,
      parse_prefix-build_prefix wire phase_msg1 0 payload_len (le_bytes 4 sender_idx ++ noise)
          (omega arith) (omega arith),
      read_le-append {E = Absent} (build_prefix wire phase_msg1 0 payload_len) noise 4 sender_idx 4
          8 refl refl fits_s,
    )

-- The views of the second and the third message, of a frame of any phase.
module _ (wire : Wire) (phase sender_idx receiver_idx : ℕ) (noise : List ℕ) (small : phase < 16)
    (fits_s : sender_idx < 2 ^ 32) (fits_r : receiver_idx < 2 ^ 32) where
  msg2_view :
      handshake_msg2_size wire ≤ length noise
      → parse_msg2_header wire (indexed_bytes phase wire sender_idx receiver_idx noise)
        ≡ ok (record {
          sender_idx = sender_idx;
          receiver_idx = receiver_idx;
          noise_msg2_offset = 12;
        })
  unfolding parse_msg2_header build_prefix
  msg2_view size =
      let sender = le_bytes 4 sender_idx in
      let prefix = build_prefix wire phase 0 (as_u16 (8 + length noise)) in
      let whole : length (indexed_bytes phase wire sender_idx receiver_idx noise)
          ≡ 12 + length noise =
        omega arith in
      rw (
        whole,
        le→ltb (12 + length noise) (msg2_wire_size wire) (omega arith),
        parse_prefix-build_prefix wire phase 0 (as_u16 (8 + length noise))
            (sender ++ (le_bytes 4 receiver_idx ++ noise)) small (omega arith),
        read_le-append {E = Absent} prefix (le_bytes 4 receiver_idx ++ noise) 4 sender_idx 4 8 refl
            refl fits_s,
        read_le-append {E = Absent} (prefix ++ sender) noise 4 receiver_idx 8 12 refl refl fits_r,
      )

  msg3_view :
      handshake_msg3_size wire ≤ length noise
      → parse_msg3_header wire (indexed_bytes phase wire sender_idx receiver_idx noise)
        ≡ ok (record {
          sender_idx = sender_idx;
          receiver_idx = receiver_idx;
          noise_msg3_offset = 12;
        })
  unfolding parse_msg3_header build_prefix
  msg3_view size =
      let sender = le_bytes 4 sender_idx in
      let prefix = build_prefix wire phase 0 (as_u16 (8 + length noise)) in
      let whole : length (indexed_bytes phase wire sender_idx receiver_idx noise)
          ≡ 12 + length noise =
        omega arith in
      rw (
        whole,
        le→ltb (12 + length noise) (msg3_wire_size wire) (omega arith),
        parse_prefix-build_prefix wire phase 0 (as_u16 (8 + length noise))
            (sender ++ (le_bytes 4 receiver_idx ++ noise)) small (omega arith),
        read_le-append {E = Absent} prefix (le_bytes 4 receiver_idx ++ noise) 4 sender_idx 4 8 refl
            refl fits_s,
        read_le-append {E = Absent} (prefix ++ sender) noise 4 receiver_idx 8 12 refl refl fits_r,
      )

indexed_written :
    (phase : ℕ) (wire : Wire) (sender_idx receiver_idx : ℕ) (noise out : List ℕ)
    → 12 + length noise ≤ length out
    → Wrote
        (build_indexed phase wire sender_idx receiver_idx noise out)
        out
        (indexed_bytes phase wire sender_idx receiver_idx noise)
indexed_written phase wire sender_idx receiver_idx noise out fits =
    let size : length (indexed_bytes phase wire sender_idx receiver_idx noise) ≡ 12 + length noise =
      unfold build_prefix in omega arith in
    rw size (build_indexed_lem phase wire sender_idx receiver_idx noise out fits)

msg1_written :
    (wire : Wire) (sender_idx : ℕ) (noise out : List ℕ)
    → 8 + length noise ≤ length out
    → Wrote (build_msg1 wire sender_idx noise out) out (msg1_bytes wire sender_idx noise)
msg1_written wire sender_idx noise out fits =
    let size : length (msg1_bytes wire sender_idx noise) ≡ 8 + length noise =
      unfold build_prefix in omega arith in
    rw size (build_msg1_lem wire sender_idx noise out fits)

-- Of frames that the builders write with `u32` indices into a buffer that holds them: the view of a
-- first message with a payload of its size, and those of a second and a third one with a payload of
-- at least theirs, give the indices and the offset of the payload. With a payload of at least both
-- sizes, the view of a second message gives them for a third message too, and that of a third
-- message for a second one: neither looks at the phase.
pub views_of_frames :
    (wire : Wire) (sender_idx receiver_idx : ℕ) (noise1 noise2 noise3 noise out : List ℕ)
    → sender_idx < 2 ^ 32
    → receiver_idx < 2 ^ 32
    → length noise1 ≡ handshake_msg1_size wire
    → handshake_msg2_size wire ≤ length noise2
    → handshake_msg3_size wire ≤ length noise3
    → handshake_msg2_size wire ≤ length noise
    → handshake_msg3_size wire ≤ length noise
    → 8 + length noise1 ≤ length out
    → 12 + length noise2 ≤ length out
    → 12 + length noise3 ≤ length out
    → 12 + length noise ≤ length out
    → Shows
        (build_msg1 wire sender_idx noise1 out)
        out
        (parse_msg1_header wire)
        (record { sender_idx = sender_idx; noise_msg1_offset = 8 })
      × Shows
          (build_msg2 wire sender_idx receiver_idx noise2 out)
          out
          (parse_msg2_header wire)
          (record { sender_idx = sender_idx; receiver_idx = receiver_idx; noise_msg2_offset = 12 })
      × Shows
          (build_msg3 wire sender_idx receiver_idx noise3 out)
          out
          (parse_msg3_header wire)
          (record { sender_idx = sender_idx; receiver_idx = receiver_idx; noise_msg3_offset = 12 })
      × Shows
          (build_msg3 wire sender_idx receiver_idx noise out)
          out
          (parse_msg2_header wire)
          (record { sender_idx = sender_idx; receiver_idx = receiver_idx; noise_msg2_offset = 12 })
      × Shows
          (build_msg2 wire sender_idx receiver_idx noise out)
          out
          (parse_msg3_header wire)
          (record { sender_idx = sender_idx; receiver_idx = receiver_idx; noise_msg3_offset = 12 })
unfolding build_msg2 build_msg3
views_of_frames wire s r noise1 noise2 noise3 noise out fits_s fits_r size1 size2 size3 as2 as3
      room1 room2 room3 room =
    (
      (
        msg1_bytes wire s noise1,
        msg1_written wire s noise1 out room1,
        msg1_view wire s noise1 fits_s size1,
      ),
      (
        indexed_bytes phase_msg2 wire s r noise2,
        indexed_written phase_msg2 wire s r noise2 out room2,
        msg2_view wire phase_msg2 s r noise2 (omega arith) fits_s fits_r size2,
      ),
      (
        indexed_bytes phase_msg3 wire s r noise3,
        indexed_written phase_msg3 wire s r noise3 out room3,
        msg3_view wire phase_msg3 s r noise3 (omega arith) fits_s fits_r size3,
      ),
      (
        indexed_bytes phase_msg3 wire s r noise,
        indexed_written phase_msg3 wire s r noise out room,
        msg2_view wire phase_msg3 s r noise (omega arith) fits_s fits_r as2,
      ),
      (
        indexed_bytes phase_msg2 wire s r noise,
        indexed_written phase_msg2 wire s r noise out room,
        msg3_view wire phase_msg2 s r noise (omega arith) fits_s fits_r as3,
      ),
    )
