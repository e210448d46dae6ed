-- ===== src/Negotiation.antt =====
-- The negotiation payload of crates/fips-fmp/src/negotiation.rs: profiles, the fixed header, the
-- TLV region behind it, and the split of a handshake payload.
pub mod Version
pub mod Tlv
pub mod RoundTrip
pub mod Split
mod Tests
use microfips.Base.{
  ℕ, zero, suc, ◌+◌, ◌*◌, ◌/◌, ◌%◌, ◌^◌, min, bit_and, bit_or, List, [], ◌∷◌, length, ltb, ◌==◌,
  ◌!=◌,
}
use microfips.Base.{if◌then◌else◌, Option, none, some, Bool, true, false, ◌||◌, take, drop}
use microfips.Bytes.{le_bytes, from_le}
use microfips.Exec.{
  Exec, ok, err, panic, Absent, absent, index, store, read_le, slice, slice_from, copy_into, ◌>>=◌,
}

abbrev pub negotiation_header_size : ℕ
negotiation_header_size = 10

abbrev pub negotiation_max_size : ℕ
negotiation_max_size = 64

abbrev pub negotiation_format_v0 : ℕ
negotiation_format_v0 = 0

abbrev pub tlv_rekey_of : ℕ
tlv_rekey_of = 1

abbrev pub fmp_feat_profile_mask : ℕ
fmp_feat_profile_mask = 7

pub data NodeProfile : Type 0 where
  full non_routing leaf : NodeProfile

-- `profile as u8 as u64`
abbrev pub profile_bits : NodeProfile → ℕ
profile_bits full = 0
profile_bits non_routing = 1
profile_bits leaf = 2

abbrev pub from_features : ℕ → Option NodeProfile
from_features features =
    let profile = bit_and features fmp_feat_profile_mask in
    if profile == 0
    then some full
    else if profile == 1
    then some non_routing
    else if profile == 2
    then some leaf
    else none

abbrev pub is_full : NodeProfile → Bool
is_full full = true
is_full _ = false

abbrev pub valid_pairing : NodeProfile → NodeProfile → Bool
valid_pairing ours theirs = is_full ours || is_full theirs

-- Sender and receiver reports: bits 3 and 4 say what is provided, 5 and 6 what is wanted.
abbrev pub fmp_features : NodeProfile → ℕ
fmp_features full =
    bit_or (bit_or (bit_or (bit_or (profile_bits full) (2 ^ 3)) (2 ^ 4)) (2 ^ 5)) (2 ^ 6)
fmp_features non_routing =
    bit_or (bit_or (bit_or (profile_bits non_routing) (2 ^ 3)) (2 ^ 4)) (2 ^ 6)
fmp_features leaf = bit_or (profile_bits leaf) (2 ^ 4)

pub data NegotiationError : Type 0 where
  too_short bad_format bad_version_range truncated_tlv bad_rekey_marker : NegotiationError

pub record NegotiationHeader : Type 0 where
  pub version_min : ℕ
  pub version_max : ℕ
  pub features : ℕ

-- `NegotiationHeader::parse`
unfoldable pub parse_header : List ℕ → Exec NegotiationError NegotiationHeader
parse_header buf = if ltb (length buf) negotiation_header_size then err too_short else (do
  format ← index buf 0
  if format != negotiation_format_v0 then err bad_format else (do
    versions ← index buf 1
    if ltb (bit_and versions 0x0f) (versions / 16) then err bad_version_range else (do
      features ← read_le buf 2 10
      ok (record {
        version_min = versions / 16;
        version_max = bit_and versions 0x0f;
        features = features;
      }))))

unfoldable pub agree_version : NegotiationHeader → NegotiationHeader → Exec NegotiationError ℕ
agree_version ours theirs =
    let agreed = min ours.version_max theirs.version_max in
    if ltb agreed ours.version_min || ltb agreed theirs.version_min
    then err bad_version_range
    else ok agreed

abbrev pub node_profile : NegotiationHeader → Option NodeProfile
node_profile header = from_features header.features

-- The TLV of the rekey marker, behind the header.
unfoldable pub write_rekey : Option ℕ → List ℕ → Exec Absent (ℕ × List ℕ)
write_rekey none out = ok (negotiation_header_size, out)
write_rekey (some idx) out = do
  with_field ← copy_into out 10 12 (le_bytes 2 tlv_rekey_of)
  with_size ← copy_into with_field 12 14 (le_bytes 2 4)
  with_idx ← copy_into with_size 14 18 (le_bytes 4 idx)
  ok (18, with_idx)

abbrev pub needed_for : Option ℕ → ℕ
needed_for none = negotiation_header_size
needed_for (some idx) = negotiation_header_size + (4 + 4)

unfoldable pub encode_payload : List ℕ → ℕ → ℕ → ℕ → Option ℕ → Exec Absent (ℕ × List ℕ)
encode_payload out version_min version_max features rekey =
    if ltb (length out) (needed_for rekey) then err absent else (do
      with_format ← store out 0 negotiation_format_v0
      with_versions ←
          store with_format 1 (bit_or (version_min * 16 % 256) (bit_and version_max 0x0f))
      with_features ← copy_into with_versions 2 10 (le_bytes 8 features)
      write_rekey rekey with_features)

-- The loop of `find_tlv` over the TLV region. Each round takes at least four bytes off `rest`; a
-- round for which there is no fuel is a panic of the model.
unfoldable pub scan : ℕ → ℕ → List ℕ → Exec NegotiationError (Option (List ℕ))
scan fuel field_num [] = ok none
scan zero field_num (b ∷ rest) = panic
scan (suc fuel) field_num (b ∷ bs) =
    let rest = b ∷ bs in
    if ltb (length rest) 4 then err truncated_tlv else (do
      n0 ← index rest 0
      n1 ← index rest 1
      l0 ← index rest 2
      l1 ← index rest 3
      let len = from_le (l0 ∷ l1 ∷ [])
      if ltb (length rest) (4 + len) then err truncated_tlv else (do
        value ← slice rest 4 (4 + len)
        if from_le (n0 ∷ n1 ∷ []) == field_num
            then ok (some value)
            else (do next ← slice_from rest (4 + len); scan fuel field_num next)))

unfoldable pub find_tlv : List ℕ → ℕ → Exec NegotiationError (Option (List ℕ))
find_tlv buf field_num =
    if ltb (length buf) negotiation_header_size
    then err too_short
    else (do rest ← slice_from buf negotiation_header_size; scan (length rest) field_num rest)

unfoldable pub read_rekey : Option (List ℕ) → Exec NegotiationError (Option ℕ)
read_rekey none = ok none
read_rekey (some value) =
    if length value == 4 then ok (some (from_le value)) else err bad_rekey_marker

unfoldable pub rekey_of : List ℕ → Exec NegotiationError (Option ℕ)
rekey_of buf = do found ← find_tlv buf tlv_rekey_of; read_rekey found

-- `split_msg2_noise` and `split_msg3_noise` call it at the sizes of their messages.
unfoldable pub split_handshake_noise : List ℕ → ℕ → Exec NegotiationError (List ℕ × Option (List ℕ))
split_handshake_noise payload base_size =
    if ltb base_size (length payload)
    then (do
      base ← slice payload 0 base_size
      extra ← slice_from payload base_size
      ok (base, some extra))
    else ok (payload, none)
