-- ===== src/Fsp/Session/XxConversation.antt =====
-- Noise XX under a session: the negotiation payload is sealed behind the second and the third message.
use microfips.Bytes.{eq_bytes_self}
use microfips.Base.{
  ℕ, ◌≤◌, List, [], ◌++◌, length, drop, some, none, replicate, ◌≡◌, refl, arith, sym, length-drop,
  length-append, lt→ltb,
}
use microfips.Exec.{ok}
use microfips.Exec.Laws.{slice-append, slice_from-append}
use microfips.Exec.Write.{after, next}
use microfips.Noise.{NoiseError}
use microfips.Noise.Symmetric.{Crypto, Symmetric, hashed, counted, initialized, ecdh_pubkey}
use microfips.Noise.Steps.{IsCrypto, Crossing, cross, whole_slice}
use microfips.Negotiation.{split_handshake_noise}
use microfips.Negotiation.{NegotiationError}
use microfips.Noise.Xx.{
  NoiseXxInitiator, NoiseXxResponder, protocol_name_xx, new_xx_initiator, new_xx_responder,
}
use microfips.Noise.Xx.Agree.{message2, message3, initiator_at, responder_at}
use microfips.Noise.Xx.Initiator as Initiator
use microfips.Noise.Xx.Responder as Responder
use microfips.Fsp.Session.{noise_error, from_noise_error, buffer_too_small, small_buffer}
use microfips.Fsp.Session.Xx.{start_xx, read_ack_xx, read_msg3, xx_initiator, xx_responder}
use microfips.Fsp.Session.Establish.{Conversation, IsEstablished, establish}
use microfips.Fsp.Session.Established.{establish-IsEstablished}
use microfips.Fsp.Session.Initiator.{FspInitiatorSession}
use microfips.Fsp.Session.Responder.{FspSession}
use microfips.Fsp.Session.Block.{block, append_sealed_lem}

module _ (c : Crypto) (l : IsCrypto c) (e_i s_i e_r s_r pe_i ps_i pe_r ps_r known : List ℕ)
    (ke_i : c.public_key e_i ≡ some pe_i) (ks_i : c.public_key s_i ≡ some ps_i)
    (ke_r : c.public_key e_r ≡ some pe_r) (ks_r : c.public_key s_r ≡ some ps_r)
    (parity : drop 1 known ≡ drop 1 ps_r) (epoch_i epoch_r src dst : List ℕ)
    (short_i : length epoch_i ≡ 8) (short_r : length epoch_r ≡ 8) (size_src : length src ≡ 16) where
  -- The block that one side seals under a key schedule is opened by the other.
  block_crosses :
      (s : Symmetric) (key : List ℕ)
      → s.k ≡ some key
      → (enc : List ℕ) × (length enc ≡ 26) × Crossing c l s block enc
  block_crosses s key has =
      let (enc, x) = cross c l s key block has (omega arith) in (enc, omega (arith, x.size), x)

  split_lem :
      (base enc : List ℕ) (n : ℕ)
      → length base ≡ n
      → length enc ≡ 26
      → split_handshake_noise (base ++ enc) n ≡ ok (base, some enc)
  unfolding split_handshake_noise
  split_lem base enc n size_base size = rw (
    lt→ltb n (length (base ++ enc)) (omega (arith, length-append base enc)),
    slice-append {E = NegotiationError} [] base enc 0 n refl (omega (arith, size_base)),
    slice_from-append {E = NegotiationError} base enc n (omega (arith, size_base)),
  )

  xx-Conversation :
      Conversation c
        (xx_initiator c)
        (xx_responder c)
        e_i
        s_i
        known
        epoch_i
        e_r
        s_r
        epoch_r
        src
        dst
        ps_i
  unfolding new_xx_initiator new_xx_responder ecdh_pubkey Initiator.write_message1
      Responder.read_message1 Initiator.finalize Responder.finalize start_xx read_ack_xx read_msg3
      Initiator.encrypt_payload Initiator.decrypt_payload Responder.encrypt_payload
      Responder.decrypt_payload
  xx-Conversation =
      let point : length pe_i ≡ 33 = (l.public_key_point e_i pe_i ke_i).0 in
      let s1 : Symmetric = hashed c pe_i (initialized c protocol_name_xx) in
      let zeros2 : List ℕ = replicate 186 0 in
      let zeros3 : List ℕ = replicate 153 0 in
      let (b, s2, key, size_b, has, sent2, got2) =
        message2 c l e_i s_i e_r s_r pe_i ps_i pe_r ps_r ke_i ks_i ke_r ks_r s1 epoch_r zeros2
          short_r (omega arith) in
      let (enc2, size_enc2, x) = block_crosses s2 key has in
      let t2 : Symmetric = hashed c enc2 (counted s2) in
      let (d, s3, key3, size_d, has3, sent3, got3) =
        message3 c l e_i s_i e_r s_r pe_i ps_i pe_r ps_r ke_i ks_i ke_r ks_r t2 key epoch_i zeros3
          has short_i (omega arith) in
      let (enc3, size_enc3, y) = block_crosses s3 key3 has3 in
      let t3 : Symmetric = hashed c enc3 (counted s3) in
      let at_i = initiator_at c l e_i s_i e_r s_r pe_i ps_i pe_r ps_r ke_i ks_i ke_r ks_r in
      let at_r = responder_at c l e_i s_i e_r s_r pe_i ps_i pe_r ps_r ke_i ks_i ke_r ks_r in
      let size_m2 : length (b ++ enc2) ≡ 132 = omega (arith, length-append b enc2) in
      let size_m3 : length (d ++ enc3) ≡ 99 = omega (arith, length-append d enc3) in
      record {
        m1 = pe_i;
        m2 = b ++ enc2;
        m3 = d ++ enc3;
        i0 = at_i (initialized c protocol_name_xx) none none;
        i1 = at_i s1 none none;
        i2 = at_i t2 (some pe_r) (some ps_r);
        i3 = at_i s3 (some pe_r) (some ps_r);
        i4 = at_i t3 (some pe_r) (some ps_r);
        r0 = at_r s1 none none (some pe_i) none;
        r1 = at_r s2 (some e_r) (some pe_r) (some pe_i) none;
        r2 = at_r t2 (some e_r) (some pe_r) (some pe_i) none;
        r3 = at_r t3 (some e_r) (some pe_r) (some pe_i) (some ps_i);
        e_pub = pe_i;
        buf2 = after b zeros2;
        buf3 = after d zeros3;
        ack_dst = src;
        n2 = 106;
        n3 = 73;
        size1 = point;
        size2 = omega (arith, size_m2);
        size3 = omega (arith, size_m3);
        size_dst = size_src;
        my_pub_is = ks_i;
        rs_pub = ps_r;
        rs_pub_is = ks_r;
        started = rw ke_i;
        wrote1 = rw (
            next {E = NoiseError} [] pe_i (replicate 64 0) 0 33 refl (omega (arith, point))
              (omega arith));
        begun = rw (ks_r, point, whole_slice {E = NoiseError} pe_i 33 point);
        wrote2 = sent2;
        answers = refl;
        appended2 =
            append_sealed_lem buffer_too_small from_noise_error (Responder.encrypt_payload c) b enc2
              zeros2 106 (at_r s2 (some e_r) (some pe_r) (some pe_i) none)
              (at_r t2 (some e_r) (some pe_r) (some pe_i) none) (sym size_b) size_enc2 (omega arith)
              (rw (
                x.sealed [] (drop (length b) zeros2) 0 refl
                  (omega (arith, length-drop (length b) zeros2, size_b))));
        read2 = rw (
          split_lem b enc2 106 size_b size_enc2,
          got2,
          parity,
          eq_bytes_self (drop 1 ps_r),
          x.opened_into (replicate 64 0) (omega arith),
        );
        wrote3 = sent3;
        appended3 =
            append_sealed_lem small_buffer noise_error (Initiator.encrypt_payload c) d enc3 zeros3
              73 (at_i s3 (some pe_r) (some ps_r)) (at_i t3 (some pe_r) (some ps_r)) (sym size_d)
              size_enc3 (omega arith)
              (rw (
                y.sealed [] (drop (length d) zeros3) 0 refl
                  (omega (arith, length-drop (length d) zeros3, size_d))));
        accepted = rw size_m3;
        read3 = rw (
          split_lem d enc3 73 size_d size_enc3,
          got3,
          y.opened_into (replicate 64 0) (omega arith),
        );
        same_keys = refl;
      }

  -- With the feature noise-xx, a session between two sides comes to its end, with the addresses and
  -- the buffers of the sizes of the messages: both sides are established, each sends under the key
  -- that the other receives under, and the responder knows the static key of the initiator. The
  -- public keys are those of the secrets, an epoch has 8 bytes, the pinned key differs from the
  -- responder's in its first byte at most, and the crates keep `IsCrypto`.
  pub xx_session-IsEstablished :
      (setup_out ack_out msg3_out : List ℕ)
      → length dst ≡ 16
      → 76 ≤ length setup_out
      → 229 ≤ length ack_out
      → 160 ≤ length msg3_out
      → (i : FspInitiatorSession NoiseXxInitiator) × (r : FspSession NoiseXxResponder) × (establish
            c
            (xx_initiator c)
            (xx_responder c)
            e_i
            s_i
            known
            epoch_i
            e_r
            s_r
            epoch_r
            src
            dst
            setup_out
            ack_out
            msg3_out
          ≡ ok (i, r))
        × IsEstablished ps_i i r
  xx_session-IsEstablished setup_out ack_out msg3_out =
      establish-IsEstablished c l (xx_initiator c) (xx_responder c) e_i s_i known epoch_i e_r s_r
        epoch_r src dst ps_i xx-Conversation setup_out ack_out msg3_out size_src
