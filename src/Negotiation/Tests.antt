-- ===== src/Negotiation/Tests.antt =====
-- Negotiation payloads at concrete inputs.
use microfips.Base.{ℕ, List, [], ◌∷◌, ◌++◌, ◌≤◌, replicate, some, ◌≡◌, refl, arith}
use microfips.Exec.{ok}
use microfips.Fmp.RoundTrip.{Wrote}
use microfips.Negotiation.{NegotiationHeader, leaf, fmp_features, encode_payload, parse_header}
use microfips.Negotiation.{rekey_of, find_tlv, agree_version, node_profile}
use microfips.Negotiation.Version.{Supports, agree_version_greatest}
use microfips.Negotiation.Tlv.{Entry, entry_bytes, find_tlv-entry_bytes}
use microfips.Negotiation.RoundTrip.{parse-encode_payload}

abbrev ours : NegotiationHeader
ours = record { version_min = 1; version_max = 3; features = fmp_features leaf }

abbrev theirs : NegotiationHeader
theirs = record { version_min = 2; version_max = 5; features = 0 }

-- A leaf's features say that it is a leaf.
node_profile-ours : node_profile ours ≡ some leaf
node_profile-ours = refl

agree_version_greatest_example :
    (v : ℕ) × (agree_version ours theirs ≡ ok v) × Supports ours v × Supports theirs v × (2 ≤ v)
agree_version_greatest_example =
    agree_version_greatest ours theirs 2 (omega arith, omega arith) (omega arith, omega arith)

parse-encode_payload_example :
    (bytes : List ℕ) × Wrote
      (encode_payload (replicate 20 0) 1 3 (fmp_features leaf) (some 258))
      (replicate 20 0)
      bytes
    × (parse_header bytes ≡ ok ours)
    × (rekey_of bytes ≡ ok (some 258))
parse-encode_payload_example =
    parse-encode_payload (replicate 20 0) 1 3 (fmp_features leaf) (some 258) (omega arith)
      (omega arith) (omega arith) (omega arith) (omega arith)

abbrev entries : List Entry
entries = (5, []) ∷ (1, 7 ∷ 8 ∷ []) ∷ (1, 9 ∷ []) ∷ []

find_tlv-entry_bytes_example :
    find_tlv (replicate 10 0 ++ entry_bytes entries) 1 ≡ ok (some (7 ∷ 8 ∷ []))
find_tlv-entry_bytes_example =
    find_tlv-entry_bytes (replicate 10 0) entries 1 refl
      (omega arith, omega arith, (omega arith, omega arith, (omega arith, omega arith, tt)))
