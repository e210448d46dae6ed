-- ===== src/Noise/Ik/Agree.antt =====
-- What both sides of Noise IK hold after each message.
use microfips.Base.{ℕ, ◌≤◌, List, [], ◌∷◌, ◌++◌, length, drop, Option, none, some}
use microfips.Base.{◌≡◌, refl, arith, ◌∙◌, length-append, append_assoc, le→ltb}
use microfips.Exec.{ok}
use microfips.Exec.Laws.{slice_from-append}
use microfips.Exec.Write.{after, next}
use microfips.Noise.{NoiseError}
use microfips.Noise.Symmetric.{
  Crypto, Symmetric, hashed, keyed, counted, ecdh_pubkey, x_only_ecdh, initialized,
}
use microfips.Noise.Steps.{taken, IsPoint, IsCrypto, cross, mix_dh_lem, first_of_two}
use microfips.Noise.Ik.{
  NoiseIkInitiator, NoiseIkResponder, protocol_name, new_ik_initiator, new_ik_responder,
}
use microfips.Noise.Ik.Handshake.{handshake}
use microfips.Noise.Ik.Initiator as Initiator
use microfips.Noise.Ik.Responder as Responder

module _ (c : Crypto) (l : IsCrypto c) (e_i s_i e_r s_r pe_i ps_i pe_r ps_r known : List ℕ)
    (ke_i : c.public_key e_i ≡ some pe_i) (ks_i : c.public_key s_i ≡ some ps_i)
    (ke_r : c.public_key e_r ≡ some pe_r) (ks_r : c.public_key s_r ≡ some ps_r)
    (is_point : IsPoint known) (parity : drop 1 known ≡ drop 1 ps_r) where
  abbrev initiator_at : Symmetric → NoiseIkInitiator
  initiator_at s = record {
    symmetric = s;
    e_priv = e_i;
    e_pub = pe_i;
    s_priv = s_i;
    rs_pub = known;
  }

  abbrev responder_at : Symmetric → Option (List ℕ) → NoiseIkResponder
  responder_at s rs_pub = record { symmetric = s; s_priv = s_r; ei_pub = pe_i; rs_pub = rs_pub }

  -- A secret shared with the responder, whichever parity of its key is known.
  shared :
      (e p : List ℕ)
      → c.public_key e ≡ some p
      → (x : List ℕ) × (c.ecdh e known ≡ some x) × (c.ecdh s_r p ≡ some x)
  shared e p ke =
      let (x, here, there) = l.ecdh_agrees e s_r p ps_r ke ks_r in
      (
        x,
        l.ecdh_parity e known ps_r is_point (l.public_key_point s_r ps_r ks_r) parity ∙ here,
        there,
      )

  message1 :
      (s : Symmetric) (epoch out : List ℕ)
      → length epoch ≡ 8
      → 106 ≤ length out
      → (fields : List ℕ) × (es : List ℕ) × (t : Symmetric) × (length fields ≡ 73)
        × (c.ecdh s_r pe_i ≡ some es)
        × (Initiator.write_message1 c ps_i epoch out (initiator_at s)
            ≡ (ok (106, after (pe_i ++ fields) out), initiator_at t))
        × (Responder.read_message1 c fields
              (responder_at (keyed c (c.sha256 es) (hashed c pe_i s)) none)
            ≡ (ok (ps_i, epoch), responder_at t (some ps_i)))
  unfolding Initiator.write_message1 Responder.read_message1
  message1 s epoch out short room =
      let point_e = (l.public_key_point e_i pe_i ke_i).0 in
      let point_s = (l.public_key_point s_i ps_i ks_i).0 in
      let (es, es_i, es_r) = shared e_i pe_i ke_i in
      let (ss, ss_i, ss_r) = shared s_i ps_i ks_i in
      let s2 = keyed c (c.sha256 es) (hashed c pe_i s) in
      let (b, x) = cross c l s2 _ ps_i refl (omega (arith, point_s)) in
      let s4 = keyed c (c.sha256 ss) (hashed c b (counted s2)) in
      let (d, y) = cross c l s4 _ epoch refl (omega (arith, short)) in
      let size_b : length b ≡ 49 = omega (arith, x.size, point_s) in
      let size_d : length d ≡ 24 = omega (arith, y.size, short) in
      let size_eb : length (pe_i ++ b) ≡ 82 = omega (arith, length-append pe_i b) in
      let size : length (b ++ d) ≡ 73 = omega (arith, length-append b d) in
      (
        b ++ d,
        es,
        hashed c d (counted s4),
        size,
        es_r,
        rw (
          le→ltb (length out) 106 room,
          next {E = NoiseError} [] pe_i out 0 33 refl (omega (arith, point_e)) (omega arith),
          mix_dh_lem c e_i known es (hashed c pe_i s) es_i,
          x.sealed pe_i out 33 (omega (arith, point_e)) (omega (arith, point_s)),
          point_s,
          mix_dh_lem c s_i known ss (hashed c b (counted s2)) ss_i,
          y.sealed (pe_i ++ b) out 82 (omega (arith, size_eb)) (omega (arith, short)),
          short,
          append_assoc pe_i b d,
        ),
        rw (
          size,
          first_of_two b d 49 (omega (arith, size_b)),
          x.opened 33 (omega (arith, point_s)),
          mix_dh_lem c s_r ps_i ss (hashed c b (counted s2)) ss_r,
          slice_from-append {E = NoiseError} b d 49 (omega (arith, size_b)),
          y.opened 8 (omega (arith, short)),
        ),
      )

  message2 :
      (s : Symmetric) (epoch out : List ℕ)
      → length epoch ≡ 8
      → 57 ≤ length out
      → (bytes : List ℕ) × (t : Symmetric) × (length bytes ≡ 57)
        × (Responder.write_message2 c e_r epoch out (responder_at s (some ps_i))
            ≡ (ok (57, after bytes out), responder_at t (some ps_i)))
        × (Initiator.read_message2 c bytes (initiator_at s) ≡ (ok epoch, initiator_at t))
  unfolding Responder.write_message2 Initiator.read_message2 ecdh_pubkey
  message2 s epoch out short room =
      let point = (l.public_key_point e_r pe_r ke_r).0 in
      let (ee, ee_i, ee_r) = l.ecdh_agrees e_i e_r pe_i pe_r ke_i ke_r in
      let (es, es_i, es_r) = shared e_i pe_i ke_i in
      let s2 = keyed c (c.sha256 ee) (hashed c pe_r s) in
      let s3 = keyed c (c.sha256 es) s2 in
      let (d, y) = cross c l s3 _ epoch refl (omega (arith, short)) in
      let size : length (pe_r ++ d) ≡ 57 =
        omega (arith, length-append pe_r d, y.size, short, point) in
      (
        pe_r ++ d,
        hashed c d (counted s3),
        size,
        rw (
          le→ltb (length out) 57 room,
          ke_r,
          next {E = NoiseError} [] pe_r out 0 33 refl (omega (arith, point)) (omega arith),
          mix_dh_lem c e_r pe_i ee (hashed c pe_r s) ee_r,
          mix_dh_lem c s_r pe_i es s2 es_r,
          y.sealed pe_r out 33 (omega (arith, point)) (omega (arith, short)),
          short,
        ),
        rw (
          size,
          first_of_two pe_r d 33 (omega (arith, point)),
          mix_dh_lem c e_i pe_r ee (hashed c pe_r s) ee_i,
          mix_dh_lem c e_i known es s2 es_i,
          slice_from-append {E = NoiseError} pe_r d 33 (omega (arith, point)),
          y.opened 8 (omega (arith, short)),
        ),
      )

  -- Noise IK comes to its end, on any buffers that hold the messages, also where the initiator knows
  -- the static key of the responder with the other parity: the responder has learnt the static key
  -- and the epoch of the initiator, the initiator the epoch of the responder, and both hold the same
  -- key schedule. The public keys are those of the secrets, an epoch has 8 bytes, the known key is a
  -- point that differs from the responder's in its first byte at most, and the crates keep
  -- `IsCrypto`.
  pub ik_handshake_agrees :
      (epoch_i epoch_r out1 out2 : List ℕ)
      → length epoch_i ≡ 8
      → length epoch_r ≡ 8
      → 106 ≤ length out1
      → 57 ≤ length out2
      → (t : Symmetric) × (handshake c e_i s_i ps_i known epoch_i e_r s_r epoch_r out1 out2
          ≡ ok (record {
            initiator = initiator_at t;
            responder = responder_at t (some ps_i);
            initiator_static = ps_i;
            initiator_epoch = epoch_i;
            responder_epoch = epoch_r;
          }))
  unfolding handshake new_ik_initiator new_ik_responder ecdh_pubkey x_only_ecdh
  ik_handshake_agrees epoch_i epoch_r out1 out2 short_i short_r room1 room2 =
      let point = (l.public_key_point e_i pe_i ke_i).0 in
      let s0 = hashed c (2 ∷ drop 1 ps_r) (initialized c protocol_name) in
      let (b, es, s1, size_b, es_r, sent1, read1) = message1 s0 epoch_i out1 short_i room1 in
      let (d, t, size_d, sent2, read2) = message2 s1 epoch_r out2 short_r room2 in
      let size : length (pe_i ++ b) ≡ 106 = omega (arith, length-append pe_i b) in
      (
        t,
        rw (
          ke_i,
          parity,
          sent1,
          taken (pe_i ++ b) out1 106 size,
          first_of_two pe_i b 33 (omega (arith, point)),
          ks_r,
          es_r,
          slice_from-append {E = NoiseError} pe_i b 33 (omega (arith, point)),
          read1,
          sent2,
          taken d out2 57 size_d,
          read2,
        ),
      )
