-- ===== src/Fsp/Session/Xk.antt =====
-- What a session calls of Noise XK, the build without the feature noise-xx.
use microfips.Base.{ℕ, List, length, ◌==◌, take}
use microfips.Exec.{Exec, ok, map_err, slice, ◌>>=◌}
use microfips.Noise.Method.{pure, converting}
use microfips.Noise.Symmetric.{Crypto, pubkey_size}
use microfips.Noise.Xk.{NoiseXkInitiator, NoiseXkResponder, new_xk_initiator, new_xk_responder}
use microfips.Noise.Xk.Initiator as Initiator
use microfips.Noise.Xk.Responder as Responder
use microfips.Fsp.Session.{
  ResponderCalls, InitiatorCalls, FspSessionError, from_noise_error, noise_error,
}

module _ (c : Crypto) where
  unfoldable pub start_xk : List ℕ → List ℕ → Exec FspSessionError NoiseXkResponder
  start_xk my_secret handshake = do
    ei_pub ← slice handshake 0 pubkey_size
    map_err from_noise_error (new_xk_responder c my_secret ei_pub)

  -- The address of the ephemeral key.
  unfoldable pub ephemeral_addr : List ℕ → List ℕ → Exec FspSessionError (List ℕ)
  ephemeral_addr setup_src handshake = do
    x_only ← slice handshake 1 pubkey_size
    ok (take 16 (c.sha256 x_only))

  abbrev pub xk_responder : ResponderCalls NoiseXkResponder
  xk_responder = record {
    start = start_xk;
    msg2_buf = 128;
    write_message2 = Responder.write_message2 c;
    ack_dst = ephemeral_addr;
    append_negotiation = λ len buf. pure (len, buf);
    accepts_msg3 = λ handshake. length handshake == 73;
    read_message3 = λ handshake. converting from_noise_error (Responder.read_message3 c handshake);
    finalize = Responder.finalize c;
  }

  -- The epoch of the responder is dropped.
  abbrev pub xk_initiator : InitiatorCalls NoiseXkInitiator
  xk_initiator = record {
    start = new_xk_initiator c;
    write_message1 = Initiator.write_message1 c;
    read_ack = λ pinned msg2 i.
        let got = converting noise_error (Initiator.read_message2 c msg2) i in
        (do epoch ← got.0; ok tt, got.1);
    msg3_buf = 128;
    write_message3 = Initiator.write_message3 c;
    append_negotiation = λ len buf. pure (len, buf);
    finalize = Initiator.finalize c;
  }
