-- ===== src/Noise/Ik/Handshake.antt =====
-- The two messages of Noise IK in the order of the protocol, over a buffer for each message. The
-- caller of the responder cuts the ephemeral key off the first message.
use microfips.Base.{ℕ, List, take}
use microfips.Exec.{Exec, ok, ◌>>=◌, slice, slice_from}
use microfips.Noise.{NoiseError}
use microfips.Noise.Method.{received}
use microfips.Noise.Symmetric.{Crypto, pubkey_size}
use microfips.Noise.Ik.{NoiseIkInitiator, NoiseIkResponder, new_ik_initiator, new_ik_responder}
use microfips.Noise.Ik.Initiator.{write_message1, read_message2}
use microfips.Noise.Ik.Responder.{read_message1, write_message2}

-- The two sides at the end, what the responder read from the first message, and the epoch that the
-- initiator read from the second.
pub record Outcome : Type 0 where
  pub initiator : NoiseIkInitiator
  pub responder : NoiseIkResponder
  pub initiator_static : List ℕ
  pub initiator_epoch : List ℕ
  pub responder_epoch : List ℕ

unfoldable pub handshake :
    Crypto
    → (e_i s_i static_i known epoch_i e_r s_r epoch_r out1 out2 : List ℕ) → Exec NoiseError Outcome
handshake c e_i s_i static_i known epoch_i e_r s_r epoch_r out1 out2 = do
  (initiator, _) ← new_ik_initiator c e_i s_i known
  ((n1, buf1), initiator1) ← received (write_message1 c static_i epoch_i out1 initiator)
  ei_pub ← slice (take n1 buf1) 0 pubkey_size
  responder ← new_ik_responder c s_r ei_pub
  fields ← slice_from (take n1 buf1) pubkey_size
  ((i_static, i_epoch), responder1) ← received (read_message1 c fields responder)
  ((n2, buf2), responder2) ← received (write_message2 c e_r epoch_r out2 responder1)
  (r_epoch, initiator2) ← received (read_message2 c (take n2 buf2) initiator1)
  ok (record {
    initiator = initiator2;
    responder = responder2;
    initiator_static = i_static;
    initiator_epoch = i_epoch;
    responder_epoch = r_epoch;
  })
