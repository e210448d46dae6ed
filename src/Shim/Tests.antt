-- ===== src/Shim/Tests.antt =====
-- An echo request and its reply.
use microfips.Base.{ℕ, ◌+◌, ◌%◌, ◌<◌, ◌≡◌, List, [], ◌∷◌, replicate, some, refl, arith}
use microfips.Exec.{ok, err, absent, index, store, slice, copy_into, read_le}
use microfips.Shim.{checksum_update, fold_carries, is_echo_request, write_reply, icmpv6_echo_reply}
use microfips.Shim.Checksum.{checksum_update-valid}

-- Ports 512 and 256, and a message of 8 bytes of this kind with the checksum 0x7edb.
abbrev message : ℕ → List ℕ
message kind =
    0 ∷ 2 ∷ 0 ∷ 1 ∷ 0 ∷ 96 ∷ 3 ∷ 211 ∷ 235 ∷ 58 ∷ 63 ∷ kind ∷ 0 ∷ 0x7e ∷ 0xdb ∷ 0 ∷ 1 ∷ 0 ∷ 1 ∷ []

echo_replied :
    icmpv6_echo_reply (message 128) (replicate 21 9)
    ≡ ok (
      19,
      0 ∷ 1 ∷ 0 ∷ 2 ∷ 0 ∷ 96 ∷ 3 ∷ 211 ∷ 235 ∷ 58 ∷ 64 ∷ 129 ∷ 0 ∷ 0x7d ∷ 0xdb ∷ 0 ∷ 1 ∷ 0 ∷ 1 ∷ 9
          ∷ 9 ∷ [],
    )
unfolding icmpv6_echo_reply is_echo_request write_reply checksum_update fold_carries index store
    slice copy_into read_le
echo_replied = refl

not_a_request : icmpv6_echo_reply (message 129) (replicate 21 9) ≡ err absent
unfolding icmpv6_echo_reply is_echo_request index read_le slice
not_a_request = refl

checksum_update-valid_example :
    (hc_new : ℕ) × (checksum_update 4660 0x8000 0x8100 ≡ some hc_new)
    × (hc_new < 65536)
    × ((28107 + 0x8100 + hc_new) % 65535 ≡ 0)
checksum_update-valid_example =
    checksum_update-valid 4660 0x8000 0x8100 28107 (omega arith) (omega arith) (omega arith) refl
