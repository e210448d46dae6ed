-- ===== src/Noise/Xk/Agree.antt =====
-- What both sides of Noise XK hold after each message.
use microfips.Base.{ℕ, ◌≤◌, List, [], ◌∷◌, ◌++◌, length, drop, Option, none, some}
use microfips.Base.{◌≡◌, refl, arith, ◌∙◌, length-append, le→ltb}
use microfips.Exec.{ok}
use microfips.Exec.Laws.{slice_from-append}
use microfips.Exec.Write.{after, next}
use microfips.Noise.{NoiseError}
use microfips.Noise.Symmetric.{
  Crypto, Symmetric, hashed, keyed, counted, ecdh_pubkey, x_only_ecdh, initialized,
}
use microfips.Noise.Steps.{taken, IsPoint, IsCrypto, cross, mix_dh_lem, first_of_two}
use microfips.Noise.Xk.{
  NoiseXkInitiator, NoiseXkResponder, protocol_name_xk, new_xk_initiator, new_xk_responder,
}
use microfips.Noise.Xk.Handshake.{handshake}
use microfips.Noise.Xk.Initiator as Initiator
use microfips.Noise.Xk.Responder as Responder

module _ (c : Crypto) (l : IsCrypto c) (e_i s_i e_r s_r pe_i ps_i pe_r ps_r known : List ℕ)
    (ke_i : c.public_key e_i ≡ some pe_i) (ks_i : c.public_key s_i ≡ some ps_i)
    (ke_r : c.public_key e_r ≡ some pe_r) where
  abbrev pub initiator_at : Symmetric → Option (List ℕ) → NoiseXkInitiator
  initiator_at s re_pub = record {
    symmetric = s;
    e_priv = e_i;
    e_pub = pe_i;
    s_priv = s_i;
    rs_pub = known;
    re_pub = re_pub;
  }

  abbrev pub responder_at : Symmetric → Option (List ℕ) → NoiseXkResponder
  responder_at s e_priv = record { symmetric = s; ei_pub = pe_i; e_priv = e_priv }

  pub message2 :
      (s : Symmetric) (epoch out : List ℕ)
      → length epoch ≡ 8
      → 57 ≤ length out
      → (bytes : List ℕ) × (t : Symmetric) × (key : List ℕ) × (length bytes ≡ 57)
        × (t.k ≡ some key)
        × (Responder.write_message2 c e_r epoch out (responder_at s none)
            ≡ (ok (57, after bytes out), responder_at t (some e_r)))
        × (Initiator.read_message2 c bytes (initiator_at s none)
            ≡ (ok epoch, initiator_at t (some pe_r)))
  unfolding Responder.write_message2 Initiator.read_message2 ecdh_pubkey
  message2 s epoch out short room =
      let point = (l.public_key_point e_r pe_r ke_r).0 in
      let (ee, ee_i, ee_r) = l.ecdh_agrees e_i e_r pe_i pe_r ke_i ke_r in
      let s2 = keyed c (c.sha256 ee) (hashed c pe_r s) in
      let (d, y) = cross c l s2 _ epoch refl (omega (arith, short)) in
      let size : length (pe_r ++ d) ≡ 57 =
        omega (arith, length-append pe_r d, y.size, short, point) in
      (
        pe_r ++ d,
        hashed c d (counted s2),
        _,
        size,
        refl,
        rw (
          le→ltb (length out) 57 room,
          ke_r,
          next {E = NoiseError} [] pe_r out 0 33 refl (omega (arith, point)) (omega arith),
          mix_dh_lem c e_r pe_i ee (hashed c pe_r s) ee_r,
          y.sealed pe_r out 33 (omega (arith, point)) (omega (arith, short)),
          short,
        ),
        rw (
          size,
          first_of_two pe_r d 33 (omega (arith, point)),
          mix_dh_lem c e_i pe_r ee (hashed c pe_r s) ee_i,
          slice_from-append {E = NoiseError} pe_r d 33 (omega (arith, point)),
          y.opened 8 (omega (arith, short)),
        ),
      )

  pub message3 :
      (s : Symmetric) (key epoch out : List ℕ)
      → s.k ≡ some key
      → length epoch ≡ 8
      → 73 ≤ length out
      → (bytes : List ℕ) × (t : Symmetric) × (length bytes ≡ 73)
        × (Initiator.write_message3 c ps_i epoch out (initiator_at s (some pe_r))
            ≡ (ok (73, after bytes out), initiator_at t (some pe_r)))
        × (Responder.read_message3 c bytes (responder_at s (some e_r))
            ≡ (ok (ps_i, epoch), responder_at t (some e_r)))
  unfolding Initiator.write_message3 Responder.read_message3
  message3 s key epoch out has short room =
      let point_s = (l.public_key_point s_i ps_i ks_i).0 in
      let (se, se_i, se_r) = l.ecdh_agrees s_i e_r ps_i pe_r ks_i ke_r in
      let (b, x) = cross c l s key ps_i has (omega (arith, point_s)) in
      let s2 = keyed c (c.sha256 se) (hashed c b (counted s)) in
      let (d, y) = cross c l s2 _ epoch refl (omega (arith, short)) in
      let size_b : length b ≡ 49 = omega (arith, x.size, point_s) in
      let size_d : length d ≡ 24 = omega (arith, y.size, short) in
      let size : length (b ++ d) ≡ 73 = omega (arith, length-append b d) in
      (
        b ++ d,
        hashed c d (counted s2),
        size,
        rw (
          le→ltb (length out) 73 room,
          x.sealed [] out 0 refl (omega (arith, point_s)),
          point_s,
          mix_dh_lem c s_i pe_r se (hashed c b (counted s)) se_i,
          y.sealed b out 49 (omega (arith, size_b)) (omega (arith, short)),
          short,
        ),
        rw (
          size,
          first_of_two b d 49 (omega (arith, size_b)),
          x.opened 33 (omega (arith, point_s)),
          mix_dh_lem c e_r ps_i se (hashed c b (counted s)) se_r,
          slice_from-append {E = NoiseError} b d 49 (omega (arith, size_b)),
          y.opened 8 (omega (arith, short)),
        ),
      )

  -- Noise XK comes to its end, on any buffers that hold the messages, also where the initiator knows
  -- the static key of the responder with the other parity: the initiator has learnt the epoch of
  -- the responder, the responder the static key and the epoch of the initiator, and both hold the
  -- same key schedule. The public keys are those of the secrets, an epoch has 8 bytes, the known key
  -- is a point that differs from the responder's in its first byte at most, and the crates keep
  -- `IsCrypto`.
  pub xk_handshake_agrees :
      c.public_key s_r ≡ some ps_r
      → IsPoint known
      → drop 1 known ≡ drop 1 ps_r
      → (epoch_i epoch_r out1 out2 out3 : List ℕ) → length epoch_i ≡ 8
      → length epoch_r ≡ 8
      → 33 ≤ length out1
      → 57 ≤ length out2
      → 73 ≤ length out3
      → (t : Symmetric) × (handshake c e_i s_i ps_i known epoch_i e_r s_r epoch_r out1 out2 out3
          ≡ ok (record {
            initiator = initiator_at t (some pe_r);
            responder = responder_at t (some e_r);
            responder_epoch = epoch_r;
            initiator_static = ps_i;
            initiator_epoch = epoch_i;
          }))
  unfolding handshake new_xk_initiator new_xk_responder ecdh_pubkey x_only_ecdh
      Initiator.write_message1
  xk_handshake_agrees ks_r is_point parity epoch_i epoch_r out1 out2 out3 short_i short_r room1
        room2 room3 =
      let point = (l.public_key_point e_i pe_i ke_i).0 in
      let (es, es_i, es_r) = l.ecdh_agrees e_i s_r pe_i ps_r ke_i ks_r in
      let es_known =
        l.ecdh_parity e_i known ps_r is_point (l.public_key_point s_r ps_r ks_r) parity in
      let s0 = hashed c pe_i (hashed c (2 ∷ drop 1 ps_r) (initialized c protocol_name_xk)) in
      let s1 = keyed c (c.sha256 es) s0 in
      let (b, s2, key, size_b, has, sent2, read2) = message2 s1 epoch_r out2 short_r room2 in
      let (d, t, size_d, sent3, read3) = message3 s2 key epoch_i out3 has short_i room3 in
      (
        t,
        rw (
          ke_i,
          parity,
          le→ltb (length out1) 33 room1,
          next {E = NoiseError} [] pe_i out1 0 33 refl (omega (arith, point)) (omega arith),
          mix_dh_lem c e_i known es s0 (es_known ∙ es_i),
          taken pe_i out1 33 point,
          ks_r,
          es_r,
          sent2,
          taken b out2 57 size_b,
          read2,
          sent3,
          taken d out3 73 size_d,
          read3,
        ),
      )
