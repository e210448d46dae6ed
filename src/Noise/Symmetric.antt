-- ===== src/Noise/Symmetric.antt =====
-- The key schedule of crates/fips-noise/src/lib.rs that all handshakes share. Each struct of a
-- handshake holds the same four fields `h`, `ck`, `k` and `n`, which are one record here.
use microfips.Base.{ℕ, ◌+◌, List, [], ◌∷◌, ◌++◌, length, take, drop, replicate, Option, none, some}
use microfips.Exec.{Exec, ok, err, slice, slice_from, copy_into}
use microfips.Noise.{NoiseError, invalid_key, Cipher, aead_encrypt, aead_decrypt}
use microfips.Noise.Method.{Method, ◌>>=◌, ◌>>◌, lift, modify, reads, pure, unwrapped}

abbrev pub pubkey_size : ℕ
pubkey_size = 33

abbrev pub epoch_size : ℕ
epoch_size = 8

-- The crates sha2, hkdf, k256 and chacha20poly1305. `hkdf salt ikm` is the expansion to 64 bytes with
-- no info. `public_key` gives the compressed point of a secret, and `ecdh` the x coordinate of the
-- shared point; `none` stands for a secret or a point that the crate refuses.
pub record Crypto : Type 0 where
  pub sha256 : List ℕ → List ℕ
  pub hkdf : List ℕ → List ℕ → List ℕ
  pub public_key : List ℕ → Option (List ℕ)
  pub ecdh : List ℕ → List ℕ → Option (List ℕ)
  pub cipher : Cipher

pub record Symmetric : Type 0 where
  pub h : List ℕ
  pub ck : List ℕ
  pub k : Option (List ℕ)
  pub n : ℕ

abbrev pub parity_normalize : List ℕ → List ℕ
parity_normalize pubkey = 2 ∷ drop 1 pubkey

abbrev pub counted : Symmetric → Symmetric
counted s = record s { n = s.n + 1 }

module _ (c : Crypto) where
  abbrev pub hashed_secret : Option (List ℕ) → Exec NoiseError (List ℕ)
  hashed_secret none = err invalid_key
  hashed_secret (some x) = ok (c.sha256 x)

  unfoldable pub x_only_ecdh : List ℕ → List ℕ → Exec NoiseError (List ℕ)
  x_only_ecdh my_secret their_pub = hashed_secret (c.ecdh my_secret their_pub)

  abbrev pub found_key : Option (List ℕ) → Exec NoiseError (List ℕ)
  found_key none = err invalid_key
  found_key (some pubkey) = ok pubkey

  unfoldable pub ecdh_pubkey : List ℕ → Exec NoiseError (List ℕ)
  ecdh_pubkey secret = found_key (c.public_key secret)

  -- The new chaining key and the new cipher key.
  abbrev pub mix_key : List ℕ → List ℕ → List ℕ × List ℕ
  mix_key ck ikm = let okm = c.hkdf ck ikm in (take 32 okm, drop 32 okm)

  abbrev pub mix_hash : List ℕ → List ℕ → List ℕ
  mix_hash h bytes = c.sha256 (h ++ bytes)

  abbrev pub hashed : List ℕ → Symmetric → Symmetric
  hashed bytes s = record s { h = mix_hash s.h bytes }

  abbrev pub keyed : List ℕ → Symmetric → Symmetric
  keyed ikm s = let keys = mix_key s.ck ikm in record s { ck = keys.0; k = some keys.1; n = 0 }

  -- `hash_one` of the protocol's name, as `h` and as `ck`.
  abbrev pub initialized : List ℕ → Symmetric
  initialized name = let h = c.sha256 name in record { h = h; ck = h; k = none; n = 0 }

  -- A token of two keys: the shared secret is mixed into the key.
  unfoldable pub mix_dh : List ℕ → List ℕ → Method NoiseError Symmetric (Unit {0})
  mix_dh my_secret their_pub = do dh ← lift (x_only_ecdh my_secret their_pub); modify (keyed dh)

  -- A field that is encrypted to `out[pos..]` and mixed into the hash. Gives the position behind it
  -- and the buffer as it leaves it.
  unfoldable pub seal_at : ℕ → List ℕ → List ℕ → Method NoiseError Symmetric (ℕ × List ℕ)
  seal_at pos plaintext out = do
    tail ← lift (slice_from out pos)
    n ← reads (λ s. s.n)
    cipher_key ← reads (λ s. s.k)
    key ← unwrapped cipher_key
    (enc_len, sealed) ← lift (aead_encrypt c.cipher key n [] plaintext tail)
    modify counted
    whole ← lift (copy_into out pos (length out) sealed)
    ciphertext ← lift (slice whole pos (pos + enc_len))
    modify (hashed ciphertext)
    pure (pos + enc_len, whole)

  -- A text that is decrypted to a buffer, its encrypted form mixed into the hash. Gives the length of
  -- the text and the buffer.
  unfoldable pub open_into : List ℕ → List ℕ → Method NoiseError Symmetric (ℕ × List ℕ)
  open_into out ciphertext = do
    n ← reads (λ s. s.n)
    cipher_key ← reads (λ s. s.k)
    key ← unwrapped cipher_key
    opened ← lift (aead_decrypt c.cipher key n [] ciphertext out)
    modify counted
    modify (hashed ciphertext)
    pure opened

  -- A field of the handshake: the buffer of its size is zero before.
  unfoldable pub open_field : ℕ → List ℕ → Method NoiseError Symmetric (List ℕ)
  open_field size ciphertext = do
    (len, plaintext) ← open_into (replicate size 0) ciphertext
    pure plaintext

  -- What each `finalize` computes: the two transport keys.
  abbrev pub split : Symmetric → List ℕ × List ℕ
  split s = mix_key s.ck []

-- `zeroize` of `ck` and `k`.
abbrev pub wiped : Symmetric → Symmetric
wiped s = record s { ck = replicate 32 0; k = none }
