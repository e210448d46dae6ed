-- ===== src/Fsp/Session/Established.antt =====
-- A handshake that both sides come through makes an established session on both sides.
use microfips.Base.{
  ℕ, ◌≤◌, List, [], ◌∷◌, length, drop, some, none, replicate, ◌≡◌, refl, arith, length-take,
}
use microfips.Exec.{ok, slice}
use microfips.Exec.Laws.{slice-append}
use microfips.Exec.Write.{after}
use microfips.Noise.Symmetric.{Crypto, ecdh_pubkey}
use microfips.Noise.Steps.{IsCrypto, taken}
use microfips.Fsp.RoundTrip.{parse-build_session}
use microfips.Fsp.Msg3.{parse-build_session_msg3}
use microfips.Fsp.Session.{ResponderCalls, InitiatorCalls, established, initiator_established}
use microfips.Fsp.Session.Establish.{establish, Conversation, IsEstablished}
use microfips.Fsp.Session.Initiator.{
  FspInitiatorSession, build_setup, handle_ack, build_msg3, setup_around, msg3_around,
}
use microfips.Fsp.Session.Responder.{
  FspSession, handle_setup, handle_msg3, answer_setup, from_pubkey_x,
}
use microfips.Fsp.Session.Initiator as Initiator

slice-after {ℓ} :
    {E : Type ℓ} (xs out : List ℕ) (n : ℕ)
    → length xs ≡ n
    → slice {E = E} (after xs out) 0 n ≡ ok xs
slice-after xs out n h = slice-append [] xs (drop (length xs) out) 0 n refl (omega (arith, h))

module _ {I R : Type 0} (c : Crypto) (l : IsCrypto c) (ic : InitiatorCalls I)
    (rc : ResponderCalls R) (e_i s_i known epoch_i e_r s_r epoch_r src dst my_pub : List ℕ)
    (v : Conversation c ic rc e_i s_i known epoch_i e_r s_r epoch_r src dst my_pub) where
  length-from_pubkey_x : (x : List ℕ) → length (from_pubkey_x c x) ≡ 16
  length-from_pubkey_x x = omega (arith, length-take 16 (c.sha256 x), l.sha256_size x)

  -- Where the handshake under a session is a conversation of both sides, and the addresses and the
  -- buffers have the sizes of the messages, the setup, the acknowledgement and the third message
  -- lead to an established session on both sides, with the keys crossed over.
  pub establish-IsEstablished :
      (setup_out ack_out msg3_out : List ℕ)
      → length src ≡ 16
      → length dst ≡ 16
      → 76 ≤ length setup_out
      → 229 ≤ length ack_out
      → 160 ≤ length msg3_out
      → (i : FspInitiatorSession I) × (r : FspSession R) × (establish c ic rc e_i s_i known epoch_i
            e_r s_r epoch_r src dst setup_out ack_out msg3_out
          ≡ ok (i, r))
        × IsEstablished my_pub i r
  unfolding establish build_setup setup_around handle_setup answer_setup handle_ack build_msg3
      msg3_around handle_msg3 Initiator.new ecdh_pubkey
  establish-IsEstablished setup_out ack_out msg3_out size_src size_dst room1 room2 room3 =
      let my_addr = from_pubkey_x c (drop 1 v.rs_pub) in
      let size_addr = length-from_pubkey_x (drop 1 v.rs_pub) in
      let ((setup, wrote_setup, parsed_setup), _) =
        parse-build_session 0 src [] (dst ∷ []) v.m1 setup_out (size_src, tt) (size_dst, tt) refl
          (omega (arith, v.size1)) (omega (arith, v.size1)) in
      let (_, (ack, wrote_ack, parsed_ack)) =
        parse-build_session 0 my_addr [] (v.ack_dst ∷ []) v.m2 ack_out (size_addr, tt)
          (v.size_dst, tt) refl (omega (arith, v.size2)) (omega (arith, v.size2)) in
      let (msg3, wrote_msg3, parsed_msg3) =
        parse-build_session_msg3 v.m3 msg3_out (omega (arith, v.size3)) (omega (arith, v.size3)) in
      let keys = ic.finalize v.i4 in
      (
        record {
          state = initiator_established;
          initiator = some v.i4;
          k_recv = some keys.1;
          k_send = some keys.0;
          my_pub = my_pub;
          pinned_responder_pub = known;
          send_counter = 0;
        },
        record {
          state = established;
          responder = none;
          k_recv = some keys.0;
          k_send = some keys.1;
          initiator_pub = some my_pub;
          send_counter = 0;
        },
        rw (
          v.started,
          v.my_pub_is,
          v.wrote1,
          slice-after v.m1 (replicate 64 0) 33 v.size1,
          wrote_setup,
          taken setup setup_out (length setup) refl,
          parsed_setup,
          v.size1,
          v.begun,
          v.wrote2,
          v.rs_pub_is,
          v.answers,
          v.appended2,
          slice-after v.m2 (replicate rc.msg2_buf 0) (length v.m2) refl,
          wrote_ack,
          taken ack ack_out (length ack) refl,
          parsed_ack,
          v.read2,
          v.wrote3,
          v.appended3,
          slice-after v.m3 (replicate ic.msg3_buf 0) (length v.m3) refl,
          wrote_msg3,
          taken msg3 msg3_out (length msg3) refl,
          parsed_msg3,
          v.accepted,
          v.read3,
          v.same_keys,
        ),
        (refl, refl, (keys.0, keys.1, refl, refl, refl, refl), refl),
      )
