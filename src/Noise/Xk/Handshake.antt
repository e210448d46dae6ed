-- ===== src/Noise/Xk/Handshake.antt =====
-- The three messages of Noise XK in the order of the protocol, over a buffer for each message.
use microfips.Base.{ℕ, List, take}
use microfips.Exec.{Exec, ok, ◌>>=◌}
use microfips.Noise.{NoiseError}
use microfips.Noise.Method.{received}
use microfips.Noise.Symmetric.{Crypto}
use microfips.Noise.Xk.{NoiseXkInitiator, NoiseXkResponder, new_xk_initiator, new_xk_responder}
use microfips.Noise.Xk.Initiator.{write_message1, read_message2, write_message3}
use microfips.Noise.Xk.Responder.{write_message2, read_message3}

-- The two sides at the end, the epoch that the initiator read from the second message, and what the
-- responder read from the third.
pub record Outcome : Type 0 where
  pub initiator : NoiseXkInitiator
  pub responder : NoiseXkResponder
  pub responder_epoch : List ℕ
  pub initiator_static : List ℕ
  pub initiator_epoch : List ℕ

unfoldable pub handshake :
    Crypto
    → (e_i s_i static_i known epoch_i e_r s_r epoch_r out1 out2 out3 : List ℕ)
    → Exec NoiseError Outcome
handshake c e_i s_i static_i known epoch_i e_r s_r epoch_r out1 out2 out3 = do
  (initiator, _) ← new_xk_initiator c e_i s_i known
  ((n1, buf1), initiator1) ← received (write_message1 c out1 initiator)
  responder ← new_xk_responder c s_r (take n1 buf1)
  ((n2, buf2), responder2) ← received (write_message2 c e_r epoch_r out2 responder)
  (r_epoch, initiator2) ← received (read_message2 c (take n2 buf2) initiator1)
  ((n3, buf3), initiator3) ← received (write_message3 c static_i epoch_i out3 initiator2)
  ((i_static, i_epoch), responder3) ← received (read_message3 c (take n3 buf3) responder2)
  ok (record {
    initiator = initiator3;
    responder = responder3;
    responder_epoch = r_epoch;
    initiator_static = i_static;
    initiator_epoch = i_epoch;
  })
