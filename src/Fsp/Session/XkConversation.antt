-- ===== src/Fsp/Session/XkConversation.antt =====
-- Noise XK under a session.
use microfips.Base.{
  ℕ, ◌≤◌, List, [], ◌∷◌, length, drop, some, none, take, replicate, ◌≡◌, refl, arith, sym, ◌∙◌,
  length-take,
}
use microfips.Exec.{ok}
use microfips.Exec.Laws.{slice_lem}
use microfips.Exec.Write.{after, next}
use microfips.Noise.{NoiseError}
use microfips.Noise.Symmetric.{Crypto, hashed, keyed, initialized, ecdh_pubkey, x_only_ecdh}
use microfips.Noise.Steps.{IsCrypto, IsPoint, mix_dh_lem, whole_slice}
use microfips.Noise.Xk.{
  NoiseXkInitiator, NoiseXkResponder, protocol_name_xk, new_xk_initiator, new_xk_responder,
}
use microfips.Noise.Xk.Agree.{message2, message3, initiator_at, responder_at}
use microfips.Noise.Xk.Initiator as Initiator
use microfips.Noise.Xk.Responder as Responder
use microfips.Fsp.Session.{FspSessionError}
use microfips.Fsp.Session.Xk.{xk_initiator, xk_responder, start_xk, ephemeral_addr}
use microfips.Fsp.Session.Establish.{Conversation, IsEstablished, establish}
use microfips.Fsp.Session.Established.{establish-IsEstablished}
use microfips.Fsp.Session.Initiator.{FspInitiatorSession}
use microfips.Fsp.Session.Responder.{FspSession}

module _ (c : Crypto) (l : IsCrypto c) (e_i s_i e_r s_r pe_i ps_i pe_r ps_r known : List ℕ)
    (ke_i : c.public_key e_i ≡ some pe_i) (ks_i : c.public_key s_i ≡ some ps_i)
    (ke_r : c.public_key e_r ≡ some pe_r) (ks_r : c.public_key s_r ≡ some ps_r)
    (is_point : IsPoint known) (parity : drop 1 known ≡ drop 1 ps_r)
    (epoch_i epoch_r src dst : List ℕ) (short_i : length epoch_i ≡ 8)
    (short_r : length epoch_r ≡ 8) where
  xk-Conversation :
      Conversation c
        (xk_initiator c)
        (xk_responder c)
        e_i
        s_i
        known
        epoch_i
        e_r
        s_r
        epoch_r
        src
        dst
        ps_i
  unfolding new_xk_initiator new_xk_responder ecdh_pubkey x_only_ecdh Initiator.write_message1
      Initiator.finalize Responder.finalize start_xk ephemeral_addr
  xk-Conversation =
      let point = (l.public_key_point e_i pe_i ke_i).0 in
      let (es, es_i, es_r) = l.ecdh_agrees e_i s_r pe_i ps_r ke_i ks_r in
      let es_known =
        l.ecdh_parity e_i known ps_r is_point (l.public_key_point s_r ps_r ks_r) parity in
      let start = hashed c (2 ∷ drop 1 known) (initialized c protocol_name_xk) in
      let s0 = hashed c pe_i start in
      let s1 = keyed c (c.sha256 es) s0 in
      let zeros : List ℕ = replicate 128 0 in
      let (b, s2, key, size_b, has, sent2, got2) =
        message2 c l e_i s_i e_r s_r pe_i ps_i pe_r ps_r known ke_i ks_i ke_r s1 epoch_r zeros
          short_r (omega arith) in
      let (d, t, size_d, sent3, got3) =
        message3 c l e_i s_i e_r s_r pe_i ps_i pe_r ps_r known ke_i ks_i ke_r s2 key epoch_i zeros
          has short_i (omega arith) in
      let at_i = initiator_at c l e_i s_i e_r s_r pe_i ps_i pe_r ps_r known ke_i ks_i ke_r in
      let at_r = responder_at c l e_i s_i e_r s_r pe_i ps_i pe_r ps_r known ke_i ks_i ke_r in
      let x_only = take 32 (drop 1 pe_i) in
      record {
        m1 = pe_i;
        m2 = b;
        m3 = d;
        i0 = at_i start none;
        i1 = at_i s1 none;
        i2 = at_i s2 (some pe_r);
        i3 = at_i t (some pe_r);
        i4 = at_i t (some pe_r);
        r0 = at_r s1 none;
        r1 = at_r s2 (some e_r);
        r2 = at_r s2 (some e_r);
        r3 = at_r t (some e_r);
        e_pub = pe_i;
        buf2 = after b zeros;
        buf3 = after d zeros;
        ack_dst = take 16 (c.sha256 x_only);
        n2 = 57;
        n3 = 73;
        size1 = point;
        size2 = omega (arith, size_b);
        size3 = omega (arith, size_d);
        size_dst = omega (arith, length-take 16 (c.sha256 x_only), l.sha256_size x_only);
        my_pub_is = ks_i;
        rs_pub = ps_r;
        rs_pub_is = ks_r;
        started = rw ke_i;
        wrote1 = rw (
          next {E = NoiseError} [] pe_i (replicate 64 0) 0 33 refl (omega (arith, point))
              (omega arith),
          mix_dh_lem c e_i known es s0 (es_known ∙ es_i),
        );
        begun = rw (whole_slice {E = FspSessionError} pe_i 33 point, ks_r, es_r, sym parity);
        wrote2 = sent2;
        answers =
            rw (slice_lem {E = FspSessionError} pe_i 1 33 (omega arith) (omega (arith, point)));
        appended2 = rw size_b;
        read2 = rw got2;
        wrote3 = sent3;
        appended3 = rw size_d;
        accepted = rw size_d;
        read3 = rw got3;
        same_keys = refl;
      }

  -- Without the feature noise-xx, a session between two sides comes to its end, with the addresses
  -- and the buffers of the sizes of the messages: both sides are established, each sends under the
  -- key that the other receives under, and the responder knows the static key of the initiator. This
  -- holds also where the initiator knows the static key of the responder with the other parity. The
  -- public keys are those of the secrets, an epoch has 8 bytes, the known key is a point that
  -- differs from the responder's in its first byte at most, and the crates keep `IsCrypto`.
  pub xk_session-IsEstablished :
      (setup_out ack_out msg3_out : List ℕ)
      → length src ≡ 16
      → length dst ≡ 16
      → 76 ≤ length setup_out
      → 229 ≤ length ack_out
      → 160 ≤ length msg3_out
      → (i : FspInitiatorSession NoiseXkInitiator) × (r : FspSession NoiseXkResponder) × (establish
            c
            (xk_initiator c)
            (xk_responder c)
            e_i
            s_i
            known
            epoch_i
            e_r
            s_r
            epoch_r
            src
            dst
            setup_out
            ack_out
            msg3_out
          ≡ ok (i, r))
        × IsEstablished ps_i i r
  xk_session-IsEstablished =
      establish-IsEstablished c l (xk_initiator c) (xk_responder c) e_i s_i known epoch_i e_r s_r
        epoch_r src dst ps_i xk-Conversation
