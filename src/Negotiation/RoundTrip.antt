-- ===== src/Negotiation/RoundTrip.antt =====
-- `encode_payload` against the readers of the payload.
use microfips.Base.{
  ℕ, ◌+◌, ◌*◌, ◌/◌, ◌%◌, ◌^◌, ◌≤◌, ◌<◌, bit_and, bit_or, List, [], ◌∷◌, ◌++◌, length, drop,
}
use microfips.Base.{
  ◌≡◌, refl, arith, ap, sym, ◌∙◌, Option, none, some, le→ltb, set, append_assoc, append-nil,
  length-append, length-set,
}
use microfips.Bits.{bit_or-fields, bit_and_mask}
use microfips.Bytes.{le_bytes, from_le-le_bytes}
use microfips.Exec.{ok, index}
use microfips.Exec.Laws.{copy_into-next, read_le-append, index_lem, store_lem}
use microfips.Fmp.RoundTrip.{Wrote}
use microfips.Negotiation.{
  encode_payload, parse_header, rekey_of, needed_for, write_rekey, read_rekey,
}
use microfips.Negotiation.Tlv.{Entry, entry_bytes, find_tlv-entry_bytes}

-- The ten bytes of the header.
abbrev pub header_bytes : ℕ → ℕ → ℕ → List ℕ
header_bytes version_min version_max features =
    0 ∷ (version_min * 16 + version_max) ∷ le_bytes 8 features

-- The entries that stand behind it: the rekey marker, if there is one.
abbrev pub rekey_entries : Option ℕ → List Entry
rekey_entries none = []
rekey_entries (some idx) = (1, le_bytes 4 idx) ∷ []

abbrev pub payload_bytes : ℕ → ℕ → ℕ → Option ℕ → List ℕ
payload_bytes version_min version_max features rekey =
    header_bytes version_min version_max features ++ entry_bytes (rekey_entries rekey)

versions_byte :
    (version_min version_max : ℕ)
    → version_min < 16
    → version_max < 16
    → bit_or (version_min * 16 % 256) (bit_and version_max 0x0f) ≡ version_min * 16 + version_max
versions_byte version_min version_max a b =
    let low : bit_and version_max 0x0f ≡ version_max = omega (arith, bit_and_mask 4 version_max) in
    let high : version_min * 16 % 256 ≡ version_min * 2 ^ 4 = omega arith in
    rw (low, high) (bit_or-fields 4 version_min version_max b)

parse_header-header_bytes :
    (version_min version_max features : ℕ) (rest : List ℕ)
    → version_min ≤ version_max
    → version_max < 16
    → features < 2 ^ 64
    → parse_header (header_bytes version_min version_max features ++ rest)
      ≡ ok (record { version_min = version_min; version_max = version_max; features = features })
unfolding parse_header
parse_header-header_bytes version_min version_max features rest order small wide =
    let buf = header_bytes version_min version_max features ++ rest in
    let high : (version_min * 16 + version_max) / 16 ≡ version_min = omega arith in
    let low : bit_and (version_min * 16 + version_max) 0x0f ≡ version_max =
      omega (arith, bit_and_mask 4 (version_min * 16 + version_max)) in
    rw (
      le→ltb (length buf) 10 (omega arith),
      index_lem buf 0 (omega arith),
      index_lem buf 1 (omega arith),
      high,
      low,
      le→ltb version_max version_min order,
      read_le-append (0 ∷ (version_min * 16 + version_max) ∷ []) rest 8 features 2 10 refl refl
          wide,
    )

two_set : (out : List ℕ) (x y : ℕ) → 2 ≤ length out → set (set out 0 x) 1 y ≡ x ∷ y ∷ drop 2 out
two_set [] x y h = absurd (omega arith)
two_set (a ∷ []) x y h = absurd (omega arith)
two_set (a ∷ b ∷ out) x y h = refl

write_rekey_lem :
    (head : List ℕ) (rekey : Option ℕ) (out : List ℕ)
    → length head ≡ 10
    → length (head ++ entry_bytes (rekey_entries rekey)) ≤ length out
    → write_rekey rekey (head ++ drop 10 out)
      ≡ ok (
        length (head ++ entry_bytes (rekey_entries rekey)),
        (head ++ entry_bytes (rekey_entries rekey))
            ++ drop (length (head ++ entry_bytes (rekey_entries rekey))) out,
      )
unfolding write_rekey
write_rekey_lem head none out size fits = rw (append-nil head, size)
write_rekey_lem head (some idx) out size fits =
    let whole : length (head ++ entry_bytes (rekey_entries (some idx))) ≡ 18 =
      omega (arith, size, length-append head (entry_bytes (rekey_entries (some idx)))) in
    let field = le_bytes 2 1 in
    let count = le_bytes 2 4 in
    rw
      (
        copy_into-next head field out 10 12 (sym size) (omega arith) (omega (arith, whole)),
        copy_into-next (head ++ field) count out 12 14
            (omega (arith, size, length-append head field)) (omega arith) (omega (arith, whole)),
        copy_into-next ((head ++ field) ++ count) (le_bytes 4 idx) out 14 18
            (omega (arith, size, length-append head field, length-append (head ++ field) count))
            (omega arith) (omega (arith, whole)),
        whole,
      )
      (ap (λ t. ok (18, t ++ drop 18 out))
        (append_assoc (head ++ field) count (le_bytes 4 idx)
          ∙ append_assoc head field (count ++ le_bytes 4 idx)))

needed_size :
    (head : List ℕ) (rekey : Option ℕ)
    → length head ≡ 10
    → length (head ++ entry_bytes (rekey_entries rekey)) ≡ needed_for rekey
needed_size head none size = omega (arith, size, length-append head [])
needed_size head (some idx) size =
    omega (arith, size, length-append head (entry_bytes (rekey_entries (some idx))))

encode_payload_lem :
    (out : List ℕ) (version_min version_max features : ℕ) (rekey : Option ℕ)
    → version_min < 16
    → version_max < 16
    → length (payload_bytes version_min version_max features rekey) ≤ length out
    → Wrote
        (encode_payload out version_min version_max features rekey)
        out
        (payload_bytes version_min version_max features rekey)
unfolding encode_payload
encode_payload_lem out version_min version_max features rekey a b fits =
    let head = header_bytes version_min version_max features in
    let needed = needed_size head rekey refl in
    let ten : length head ≤ length (payload_bytes version_min version_max features rekey) =
      omega (arith, length-append head (entry_bytes (rekey_entries rekey))) in
    rw
      (
        le→ltb (length out) (needed_for rekey) (omega (arith, needed)),
        store_lem out 0 0 (omega arith),
        versions_byte version_min version_max a b,
        store_lem (set out 0 0) 1 (version_min * 16 + version_max)
            (omega (arith, length-set out 0 0)),
        two_set out 0 (version_min * 16 + version_max) (omega arith),
        copy_into-next (0 ∷ (version_min * 16 + version_max) ∷ []) (le_bytes 8 features) out 2 10
            refl refl (omega arith),
      )
      (write_rekey_lem head rekey out refl fits)

-- A session index, where there is one, is a `u32`.
abbrev pub IsIndex : Option ℕ → Type 0
IsIndex none = Unit
IsIndex (some idx) = idx < 2 ^ 32

rekey_of-payload_bytes :
    (version_min version_max features : ℕ) (rekey : Option ℕ)
    → IsIndex rekey
    → rekey_of (payload_bytes version_min version_max features rekey) ≡ ok rekey
unfolding rekey_of read_rekey
rekey_of-payload_bytes version_min version_max features none small =
    rw (find_tlv-entry_bytes (header_bytes version_min version_max features) [] 1 refl tt)
rekey_of-payload_bytes version_min version_max features (some idx) small =
    rw
      (find_tlv-entry_bytes (header_bytes version_min version_max features)
        (rekey_entries (some idx)) 1 refl (omega arith, omega arith, tt))
      (ap (λ n. ok (some n)) (from_le-le_bytes 4 idx small))

-- A payload with a range of versions below 16, `u64` features and perhaps a `u32` rekey marker, in a
-- buffer that holds it, is written whole at its front, with the rest of the buffer left as it was;
-- from the bytes written, the header and the marker are read as they were given.
pub parse-encode_payload :
    (out : List ℕ) (version_min version_max features : ℕ) (rekey : Option ℕ)
    → version_min ≤ version_max
    → version_max < 16
    → features < 2 ^ 64
    → IsIndex rekey
    → needed_for rekey ≤ length out
    → (bytes : List ℕ) × Wrote (encode_payload out version_min version_max features rekey) out bytes
      × (parse_header bytes
          ≡ ok (record {
            version_min = version_min;
            version_max = version_max;
            features = features;
          }))
      × (rekey_of bytes ≡ ok rekey)
parse-encode_payload out version_min version_max features rekey order small wide index fits =
    let head = header_bytes version_min version_max features in
    (
      payload_bytes version_min version_max features rekey,
      encode_payload_lem out version_min version_max features rekey (omega arith) small
          (omega (arith, needed_size head rekey refl)),
      parse_header-header_bytes version_min version_max features (entry_bytes (rekey_entries rekey))
          order small wide,
      rekey_of-payload_bytes version_min version_max features rekey index,
    )
