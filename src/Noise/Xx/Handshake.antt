-- ===== src/Noise/Xx/Handshake.antt =====
-- The three messages of Noise XX in the order of the protocol, over a buffer for each message.
use microfips.Base.{ℕ, List, take}
use microfips.Exec.{Exec, ok, ◌>>=◌}
use microfips.Noise.{NoiseError}
use microfips.Noise.Method.{received}
use microfips.Noise.Symmetric.{Crypto}
use microfips.Noise.Xx.{NoiseXxInitiator, NoiseXxResponder, new_xx_initiator, new_xx_responder}
use microfips.Noise.Xx.Initiator.{write_message1, read_message2, write_message3}
use microfips.Noise.Xx.Responder.{read_message1, write_message2, read_message3}

-- The two sides at the end, what the initiator read from the second message, and what the responder
-- read from the third.
pub record Outcome : Type 0 where
  pub initiator : NoiseXxInitiator
  pub responder : NoiseXxResponder
  pub responder_static : List ℕ
  pub responder_epoch : List ℕ
  pub initiator_static : List ℕ
  pub initiator_epoch : List ℕ

unfoldable pub handshake :
    Crypto
    → (e_i s_i static_i epoch_i e_r s_r epoch_r out1 out2 out3 : List ℕ) → Exec NoiseError Outcome
handshake c e_i s_i static_i epoch_i e_r s_r epoch_r out1 out2 out3 = do
  (initiator, _) ← new_xx_initiator c e_i s_i
  responder ← new_xx_responder c s_r
  ((n1, buf1), initiator1) ← received (write_message1 c out1 initiator)
  (_, responder1) ← received (read_message1 c (take n1 buf1) responder)
  ((n2, buf2), responder2) ← received (write_message2 c e_r epoch_r out2 responder1)
  ((r_static, r_epoch), initiator2) ← received (read_message2 c (take n2 buf2) initiator1)
  ((n3, buf3), initiator3) ← received (write_message3 c static_i epoch_i out3 initiator2)
  ((i_static, i_epoch), responder3) ← received (read_message3 c (take n3 buf3) responder2)
  ok (record {
    initiator = initiator3;
    responder = responder3;
    responder_static = r_static;
    responder_epoch = r_epoch;
    initiator_static = i_static;
    initiator_epoch = i_epoch;
  })
