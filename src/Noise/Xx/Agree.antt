-- ===== src/Noise/Xx/Agree.antt =====
-- What both sides of Noise XX hold after each message.
use microfips.Base.{ℕ, ◌≤◌, List, [], ◌++◌, length, Option, none, some}
use microfips.Base.{◌≡◌, refl, arith, length-append, le→ltb, ◌==◌, true}
use microfips.Exec.{ok}
use microfips.Noise.{NoiseError}
use microfips.Exec.Laws.{slice_from-append}
use microfips.Exec.Write.{after, next}
use microfips.Noise.Symmetric.{Crypto, Symmetric, hashed, keyed, counted, ecdh_pubkey, initialized}
use microfips.Noise.Steps.{
  taken, whole_slice, IsCrypto, cross, mix_dh_lem, first_of_three, second_of_three, third_of_three,
  first_of_two,
}
use microfips.Noise.Xx.{
  NoiseXxInitiator, NoiseXxResponder, protocol_name_xx, new_xx_initiator, new_xx_responder,
}
use microfips.Noise.Xx.Handshake.{handshake}
use microfips.Noise.Xx.Initiator as Initiator
use microfips.Noise.Xx.Responder as Responder

module _ (c : Crypto) (l : IsCrypto c) (e_i s_i e_r s_r pe_i ps_i pe_r ps_r : List ℕ)
    (ke_i : c.public_key e_i ≡ some pe_i) (ks_i : c.public_key s_i ≡ some ps_i)
    (ke_r : c.public_key e_r ≡ some pe_r) (ks_r : c.public_key s_r ≡ some ps_r) where
  abbrev pub initiator_at : Symmetric → Option (List ℕ) → Option (List ℕ) → NoiseXxInitiator
  initiator_at s re_pub rs_pub = record {
    symmetric = s;
    e_priv = e_i;
    e_pub = pe_i;
    s_priv = s_i;
    re_pub = re_pub;
    rs_pub = rs_pub;
  }

  abbrev pub responder_at :
      Symmetric
      → Option (List ℕ)
      → Option (List ℕ)
      → Option (List ℕ)
      → Option (List ℕ)
      → NoiseXxResponder
  responder_at s e_priv e_pub ei_pub rs_pub = record {
    symmetric = s;
    s_priv = s_r;
    s_pub = ps_r;
    e_priv = e_priv;
    e_pub = e_pub;
    ei_pub = ei_pub;
    rs_pub = rs_pub;
  }

  -- The second message crosses: both sides hold the same key schedule behind it.
  pub message2 :
      (s : Symmetric) (epoch out : List ℕ)
      → length epoch ≡ 8
      → 106 ≤ length out
      → (bytes : List ℕ) × (t : Symmetric) × (key : List ℕ) × (length bytes ≡ 106)
        × (t.k ≡ some key)
        × (Responder.write_message2 c e_r epoch out (responder_at s none none (some pe_i) none)
            ≡ (ok (106, after bytes out), responder_at t (some e_r) (some pe_r) (some pe_i) none))
        × (Initiator.read_message2 c bytes (initiator_at s none none)
            ≡ (ok (ps_r, epoch), initiator_at t (some pe_r) (some ps_r)))
  unfolding Responder.write_message2 Responder.send_message2 Initiator.read_message2
      Initiator.receive_message2 ecdh_pubkey
  message2 s epoch out short room =
      let point_e = (l.public_key_point e_r pe_r ke_r).0 in
      let point_s = (l.public_key_point s_r ps_r ks_r).0 in
      let (ee, ee_i, ee_r) = l.ecdh_agrees e_i e_r pe_i pe_r ke_i ke_r in
      let (es, es_i, es_r) = l.ecdh_agrees e_i s_r pe_i ps_r ke_i ks_r in
      let s2 = keyed c (c.sha256 ee) (hashed c pe_r s) in
      let (b, x) = cross c l s2 _ ps_r refl (omega (arith, point_s)) in
      let s4 = keyed c (c.sha256 es) (hashed c b (counted s2)) in
      let (d, y) = cross c l s4 _ epoch refl (omega (arith, short)) in
      let size_b : length b ≡ 49 = omega (arith, x.size, point_s) in
      let size_d : length d ≡ 24 = omega (arith, y.size, short) in
      let size_eb : length (pe_r ++ b) ≡ 82 = omega (arith, length-append pe_r b) in
      let size : length ((pe_r ++ b) ++ d) ≡ 106 = omega (arith, length-append (pe_r ++ b) d) in
      let same : (106 == 106) ≡ true = refl in
      (
        (pe_r ++ b) ++ d,
        hashed c d (counted s4),
        _,
        size,
        refl,
        rw (
          le→ltb (length out) 106 room,
          ke_r,
          next {E = NoiseError} [] pe_r out 0 33 refl (omega (arith, point_e)) (omega arith),
          mix_dh_lem c e_r pe_i ee (hashed c pe_r s) ee_r,
          x.sealed pe_r out 33 (omega (arith, point_e)) (omega (arith, point_s)),
          point_s,
          mix_dh_lem c s_r pe_i es (hashed c b (counted s2)) es_r,
          y.sealed (pe_r ++ b) out 82 (omega (arith, size_eb)) (omega (arith, short)),
          short,
        ),
        rw (
          size,
          first_of_three pe_r b d 33 (omega (arith, point_e)),
          mix_dh_lem c e_i pe_r ee (hashed c pe_r s) ee_i,
          second_of_three pe_r b d 33 82 (omega (arith, point_e)) (omega (arith, point_e, size_b)),
          x.opened 33 (omega (arith, point_s)),
          mix_dh_lem c e_i ps_r es (hashed c b (counted s2)) es_i,
          third_of_three pe_r b d 82 (omega (arith, point_e, size_b)),
          y.opened 8 (omega (arith, short)),
        ),
      )

  -- The third message, under the key that the second has left.
  pub message3 :
      (s : Symmetric) (key epoch out : List ℕ)
      → s.k ≡ some key
      → length epoch ≡ 8
      → 73 ≤ length out
      → (bytes : List ℕ) × (t : Symmetric) × (next_key : List ℕ) × (length bytes ≡ 73)
        × (t.k ≡ some next_key)
        × (Initiator.write_message3 c ps_i epoch out (initiator_at s (some pe_r) (some ps_r))
            ≡ (ok (73, after bytes out), initiator_at t (some pe_r) (some ps_r)))
        × (Responder.read_message3 c bytes (responder_at s (some e_r) (some pe_r) (some pe_i) none)
            ≡ (ok (ps_i, epoch), responder_at t (some e_r) (some pe_r) (some pe_i) (some ps_i)))
  unfolding Initiator.write_message3 Responder.read_message3 Responder.receive_message3
  message3 s key epoch out has short room =
      let point_s = (l.public_key_point s_i ps_i ks_i).0 in
      let (se, se_i, se_r) = l.ecdh_agrees s_i e_r ps_i pe_r ks_i ke_r in
      let (b, x) = cross c l s key ps_i has (omega (arith, point_s)) in
      let s2 = keyed c (c.sha256 se) (hashed c b (counted s)) in
      let (d, y) = cross c l s2 _ epoch refl (omega (arith, short)) in
      let size_b : length b ≡ 49 = omega (arith, x.size, point_s) in
      let size_d : length d ≡ 24 = omega (arith, y.size, short) in
      let size : length (b ++ d) ≡ 73 = omega (arith, length-append b d) in
      (
        b ++ d,
        hashed c d (counted s2),
        _,
        size,
        refl,
        rw (
          le→ltb (length out) 73 room,
          x.sealed [] out 0 refl (omega (arith, point_s)),
          point_s,
          mix_dh_lem c s_i pe_r se (hashed c b (counted s)) se_i,
          y.sealed b out 49 (omega (arith, size_b)) (omega (arith, short)),
          short,
        ),
        rw (
          size,
          first_of_two b d 49 (omega (arith, size_b)),
          x.opened 33 (omega (arith, point_s)),
          mix_dh_lem c e_r ps_i se (hashed c b (counted s)) se_r,
          slice_from-append {E = NoiseError} b d 49 (omega (arith, size_b)),
          y.opened 8 (omega (arith, short)),
        ),
      )

  -- Noise XX comes to its end, on any buffers that hold the messages: the initiator has learnt the
  -- static key and the epoch of the responder, the responder those of the initiator, and both hold
  -- the same key schedule. The public keys are those of the secrets, an epoch has 8 bytes, and the
  -- crates keep `IsCrypto`.
  pub xx_handshake_agrees :
      (epoch_i epoch_r out1 out2 out3 : List ℕ)
      → length epoch_i ≡ 8
      → length epoch_r ≡ 8
      → 33 ≤ length out1
      → 106 ≤ length out2
      → 73 ≤ length out3
      → (t : Symmetric) × (handshake c e_i s_i ps_i epoch_i e_r s_r epoch_r out1 out2 out3
          ≡ ok (record {
            initiator = initiator_at t (some pe_r) (some ps_r);
            responder = responder_at t (some e_r) (some pe_r) (some pe_i) (some ps_i);
            responder_static = ps_r;
            responder_epoch = epoch_r;
            initiator_static = ps_i;
            initiator_epoch = epoch_i;
          }))
  unfolding handshake new_xx_initiator new_xx_responder ecdh_pubkey Initiator.write_message1
      Responder.read_message1
  xx_handshake_agrees epoch_i epoch_r out1 out2 out3 short_i short_r room1 room2 room3 =
      let point = (l.public_key_point e_i pe_i ke_i).0 in
      let s1 = hashed c pe_i (initialized c protocol_name_xx) in
      let (b, s2, key, size_b, has, sent2, read2) = message2 s1 epoch_r out2 short_r room2 in
      let (d, t, key3, size_d, has3, sent3, read3) =
        message3 s2 key epoch_i out3 has short_i room3 in
      (
        t,
        rw (
          ke_i,
          ks_r,
          le→ltb (length out1) 33 room1,
          next {E = NoiseError} [] pe_i out1 0 33 refl (omega (arith, point)) (omega arith),
          taken pe_i out1 33 point,
          point,
          whole_slice {E = NoiseError} pe_i 33 point,
          sent2,
          taken b out2 106 size_b,
          read2,
          sent3,
          taken d out3 73 size_d,
          read3,
        ),
      )
