-- ===== src/Fsp/Session/Establish.antt =====
-- A session from end to end: the setup, the acknowledgement and the third message in their order.
use microfips.Base.{ℕ, ◌≤◌, List, length, some, true, take, replicate, ◌≡◌}
use microfips.Exec.{Exec, ok, map_err, ◌>>=◌}
use microfips.Exec.Write.{after}
use microfips.Noise.Method.{received}
use microfips.Noise.Symmetric.{Crypto}
use microfips.Fsp.Session.{FspSessionError, FspInitiatorError, ResponderCalls, InitiatorCalls}
use microfips.Fsp.Session.Responder.{FspSession, handle_setup, handle_msg3}
use microfips.Fsp.Session.Initiator.{FspInitiatorSession, build_setup, handle_ack, build_msg3}
use microfips.Fsp.Session as Session
use microfips.Fsp.Session.Responder as Responder
use microfips.Fsp.Session.Initiator as Initiator

pub data Fault : Type 0 where
  initiator_fault : FspInitiatorError → Fault
  responder_fault : FspSessionError → Fault

module _ {I R : Type 0} (c : Crypto) (ic : InitiatorCalls I) (rc : ResponderCalls R)
    (e_i s_i known epoch_i e_r s_r epoch_r src dst : List ℕ) where
  unfoldable pub establish :
      (setup_out ack_out msg3_out : List ℕ) → Exec Fault (FspInitiatorSession I × FspSession R)
  establish setup_out ack_out msg3_out = do
    initiator ← map_err initiator_fault (Initiator.new c ic s_i e_i known)
    ((n1, setup), initiator1) ←
        map_err initiator_fault (received (build_setup c ic src dst setup_out initiator))
    ((n2, ack), responder1) ←
        map_err responder_fault
          (received (handle_setup c rc s_r e_r epoch_r (take n1 setup) ack_out Responder.new))
    (_, initiator2) ← map_err initiator_fault (received (handle_ack c ic (take n2 ack) initiator1))
    ((n3, msg3), initiator3) ←
        map_err initiator_fault (received (build_msg3 c ic epoch_i msg3_out initiator2))
    (_, responder2) ←
        map_err responder_fault (received (handle_msg3 c rc (take n3 msg3) responder1))
    ok (initiator3, responder2)

  -- What a session relies on of the handshake between these two: the three messages, which the other
  -- side reads, and the same key schedule at the end.
  pub record Conversation (my_pub : List ℕ) : Type 0 where
    pub m1 : List ℕ
    pub m2 : List ℕ
    pub m3 : List ℕ
    pub i0 : I
    pub i1 : I
    pub i2 : I
    pub i3 : I
    pub i4 : I
    pub r0 : R
    pub r1 : R
    pub r2 : R
    pub r3 : R
    pub e_pub : List ℕ
    pub buf2 : List ℕ
    pub buf3 : List ℕ
    pub ack_dst : List ℕ
    pub n2 : ℕ
    pub n3 : ℕ
    pub size1 : length m1 ≡ 33
    pub size2 : length m2 ≤ 186
    pub size3 : length m3 ≤ 153
    pub size_dst : length ack_dst ≡ 16
    pub my_pub_is : c.public_key s_i ≡ some my_pub
    pub rs_pub : List ℕ
    pub rs_pub_is : c.public_key s_r ≡ some rs_pub
    pub started : ic.start e_i s_i known ≡ ok (i0, e_pub)
    pub wrote1 : ic.write_message1 (replicate 64 0) i0 ≡ (ok (33, after m1 (replicate 64 0)), i1)
    pub begun : rc.start s_r m1 ≡ ok r0
    pub wrote2 : rc.write_message2 e_r epoch_r (replicate rc.msg2_buf 0) r0 ≡ (ok (n2, buf2), r1)
    pub answers : rc.ack_dst src m1 ≡ ok ack_dst
    pub appended2 :
        rc.append_negotiation n2 buf2 r1 ≡ (ok (length m2, after m2 (replicate rc.msg2_buf 0)), r2)
    pub read2 : ic.read_ack known m2 i1 ≡ (ok tt, i2)
    pub wrote3 : ic.write_message3 my_pub epoch_i (replicate ic.msg3_buf 0) i2 ≡ (ok (n3, buf3), i3)
    pub appended3 :
        ic.append_negotiation n3 buf3 i3 ≡ (ok (length m3, after m3 (replicate ic.msg3_buf 0)), i4)
    pub accepted : rc.accepts_msg3 m3 ≡ true
    pub read3 : rc.read_message3 m3 r2 ≡ (ok (my_pub, epoch_i), r3)
    pub same_keys : rc.finalize r3 ≡ ic.finalize i4

-- Both ends of an established session: each sends under the key that the other receives under, and
-- the responder knows the key of the initiator.
abbrev pub IsEstablished :
    {I R : Type 0} → (my_pub : List ℕ) → FspInitiatorSession I → FspSession R → Type 0
IsEstablished my_pub i r =
    (i.state ≡ Session.initiator_established)
    × (r.state ≡ Session.established)
    × ((k1 k2 : List ℕ) × (i.k_send ≡ some k1)
        × (r.k_recv ≡ some k1)
        × (i.k_recv ≡ some k2)
        × (r.k_send ≡ some k2))
    × (r.initiator_pub ≡ some my_pub)
