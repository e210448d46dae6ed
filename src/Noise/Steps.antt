-- ===== src/Noise/Steps.antt =====
-- What the crates promise, and the steps of a handshake that both sides take alike.
use microfips.Base.{
  ℕ, ◌+◌, ◌^◌, ◌≤◌, ◌<◌, List, [], ◌++◌, length, take, drop, replicate, get_or, some,
}
use microfips.Base.{
  ◌≡◌, ◌⊎◌, refl, arith, ap, sym, ◌∙◌, length-append, length-drop, length-replicate,
  take-append_self, drop_all, append-nil, append_assoc,
}
use microfips.Exec.{ok, slice, slice_from}
use microfips.Exec.Write.{after}
use microfips.Exec.Laws.{slice-append, slice_from-append, copy_into-append, drop-drop}
use microfips.Noise.{NoiseError, IsAead, make_nonce}
use microfips.Noise.Laws.{aead_encrypt_lem, aead_decrypt_lem}
use microfips.Noise.Symmetric.{
  Crypto, Symmetric, hashed, keyed, counted, x_only_ecdh, mix_dh, seal_at, open_into, open_field,
}

-- The parts of a message, as the receiver cuts it.
module _ (xs ys zs : List ℕ) where
  pub first_of_three :
      (b : ℕ) → b ≡ length xs → slice {E = NoiseError} ((xs ++ ys) ++ zs) 0 b ≡ ok xs
  first_of_three b hb =
      rw (append_assoc xs ys zs) (slice-append [] xs (ys ++ zs) 0 b refl (omega arith))

  pub second_of_three :
      (a b : ℕ)
      → a ≡ length xs
      → b ≡ length xs + length ys
      → slice {E = NoiseError} ((xs ++ ys) ++ zs) a b ≡ ok ys
  second_of_three a b ha hb = rw (append_assoc xs ys zs) (slice-append xs ys zs a b ha hb)

  pub third_of_three :
      (a : ℕ) → a ≡ length xs + length ys → slice_from {E = NoiseError} ((xs ++ ys) ++ zs) a ≡ ok zs
  third_of_three a ha = slice_from-append (xs ++ ys) zs a (omega (arith, length-append xs ys))

pub first_of_two :
    (xs ys : List ℕ) (b : ℕ) → b ≡ length xs → slice {E = NoiseError} (xs ++ ys) 0 b ≡ ok xs
first_of_two xs ys b hb = slice-append [] xs ys 0 b refl (omega arith)

pub whole_slice {ℓ} :
    {E : Type ℓ} (xs : List ℕ) (b : ℕ) → length xs ≡ b → slice {E = E} xs 0 b ≡ ok xs
whole_slice {E = E} xs b hb =
    ap (λ t. slice {E = E} t 0 b) (sym (append-nil xs))
    ∙ slice-append [] xs [] 0 b refl (omega (arith, hb))

-- The message that a writer of `n` bytes has left in its buffer.
pub taken : (xs out : List ℕ) (n : ℕ) → length xs ≡ n → take n (after xs out) ≡ xs
taken xs out n h = rw (sym h) (take-append_self xs (drop (length xs) out))

-- A compressed point begins with 2 or 3.
abbrev pub IsPoint : List ℕ → Type 0
IsPoint p = (length p ≡ 33) × ((get_or p 0 0 ≡ 2) ⊎ (get_or p 0 0 ≡ 3))

-- What the crates document: a hash has 32 bytes, a text of less than four gigabytes can be encrypted, a public key is a
-- compressed point, two secrets share the x coordinate of one point, and it is the same for a point
-- and its negative.
pub record IsCrypto (c : Crypto) : Type 0 where
  pub aead : IsAead c.cipher
  pub sha256_size : (bytes : List ℕ) → length (c.sha256 bytes) ≡ 32
  pub encrypts :
      (key nonce aad text : List ℕ)
      → length text < 2 ^ 32
      → (p : List ℕ × List ℕ) × (c.cipher.encrypt key nonce aad text ≡ some p)
  pub public_key_point : (secret p : List ℕ) → c.public_key secret ≡ some p → IsPoint p
  pub ecdh_agrees :
      (a b p q : List ℕ)
      → c.public_key a ≡ some p
      → c.public_key b ≡ some q
      → (x : List ℕ) × (c.ecdh a q ≡ some x) × (c.ecdh b p ≡ some x)
  pub ecdh_parity :
      (a p q : List ℕ) → IsPoint p → IsPoint q → drop 1 p ≡ drop 1 q → c.ecdh a p ≡ c.ecdh a q

module _ (c : Crypto) where
  pub mix_dh_lem :
      (secret pubkey x : List ℕ) (s : Symmetric)
      → c.ecdh secret pubkey ≡ some x
      → mix_dh c secret pubkey s ≡ (ok tt, keyed c (c.sha256 x) s)
  unfolding mix_dh x_only_ecdh
  mix_dh_lem secret pubkey x s e = rw e

  module _ (l : IsCrypto c) where
    -- A field in transit: its bytes, and what both sides do with them.
    pub record Crossing (s : Symmetric) (text bytes : List ℕ) : Type 0 where
      pub size : length bytes ≡ length text + 16
      pub sealed :
          (written out : List ℕ) (pos : ℕ)
          → pos ≡ length written
          → pos + (length text + 16) ≤ length out
          → seal_at c pos text (after written out) s ≡ (
            ok (pos + (length text + 16), after (written ++ bytes) out),
            hashed c bytes (counted s),
          )
      pub opened_into :
          (out : List ℕ)
          → length text ≤ length out
          → open_into c out bytes s ≡ (ok (length text, after text out), hashed c bytes (counted s))
      pub opened :
          (n : ℕ) → n ≡ length text → open_field c n bytes s ≡ (ok text, hashed c bytes (counted s))

    module _ (s : Symmetric) (key text body tag : List ℕ) (has : s.k ≡ some key)
        (e : c.cipher.encrypt key (make_nonce s.n) [] text ≡ some (body, tag)) where
      length-body_tag : length (body ++ tag) ≡ length text + 16
      length-body_tag = omega (
        arith,
        length-append body tag,
        (l.aead.encrypt_size key (make_nonce s.n) [] text body tag e).0,
        (l.aead.encrypt_size key (make_nonce s.n) [] text body tag e).1,
      )

      seal_at_lem :
          (written out : List ℕ) (pos : ℕ)
          → pos ≡ length written
          → pos + (length text + 16) ≤ length out
          → seal_at c pos text (after written out) s ≡ (
            ok (pos + (length text + 16), after (written ++ (body ++ tag)) out),
            hashed c (body ++ tag) (counted s),
          )
      unfolding seal_at
      seal_at_lem written out pos here fits =
          let rest = drop (length written) out in
          let room : length text + 16 ≤ length rest =
            omega (arith, length-drop (length written) out) in
          let sealed = (body ++ tag) ++ drop (length text + 16) rest in
          let full : length sealed ≡ length rest = omega (
            arith,
            length-body_tag,
            length-append (body ++ tag) (drop (length text + 16) rest),
            length-drop (length text + 16) rest,
          ) in
          let total : length (written ++ (body ++ tag)) ≡ length written + (length text + 16) =
            omega (arith, length-append written (body ++ tag), length-body_tag) in
          rw (
            slice_from-append written rest pos here,
            has,
            aead_encrypt_lem c.cipher l.aead key s.n [] text body tag rest e room,
            copy_into-append written rest sealed pos (length (written ++ rest)) here
                (omega (arith, full, length-append written rest)) (omega (arith, full)),
            drop_all (length sealed) rest (omega (arith, full)),
            append-nil (written ++ sealed),
            slice-append {E = NoiseError} written (body ++ tag) (drop (length text + 16) rest) pos
                (pos + (length text + 16)) here (omega (arith, length-body_tag)),
            total,
            drop-drop (length text + 16) (length written) out,
            append_assoc written (body ++ tag) (drop (length written + (length text + 16)) out),
          )

      open_into_lem :
          (out : List ℕ)
          → length text ≤ length out
          → open_into c out (body ++ tag) s
            ≡ (ok (length text, after text out), hashed c (body ++ tag) (counted s))
      unfolding open_into
      open_into_lem out fits =
          let sizes = l.aead.encrypt_size key (make_nonce s.n) [] text body tag e in
          rw (
            has,
            aead_decrypt_lem c.cipher l.aead key s.n [] text body tag out
                (l.aead.decrypt_encrypt key (make_nonce s.n) [] text body tag e) sizes.1
                (omega (arith, sizes.0)),
            sizes.0,
          )

      open_field_lem :
          (n : ℕ)
          → n ≡ length text
          → open_field c n (body ++ tag) s ≡ (ok text, hashed c (body ++ tag) (counted s))
      unfolding open_field
      open_field_lem n same =
          let zeros = length-replicate {A = ℕ} n 0 in
          rw (
            open_into_lem (replicate n 0) (omega (arith, zeros)),
            drop_all {A = ℕ} (length text) (replicate n 0) (omega (arith, zeros)),
            append-nil text,
          )

    -- Under a key, a text of less than four gigabytes crosses.
    pub cross :
        (s : Symmetric) (key text : List ℕ)
        → s.k ≡ some key
        → length text < 2 ^ 32
        → (bytes : List ℕ) × Crossing s text bytes
    cross s key text has short =
        let ((body, tag), e) = l.encrypts key (make_nonce s.n) [] text short in
        (
          body ++ tag,
          record {
            size = length-body_tag s key text body tag has e;
            sealed = seal_at_lem s key text body tag has e;
            opened_into = open_into_lem s key text body tag has e;
            opened = open_field_lem s key text body tag has e;
          },
        )
