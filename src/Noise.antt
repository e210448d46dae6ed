-- ===== src/Noise.antt =====
-- The AEAD calls of crates/fips-noise/src/lib.rs, over the cipher of the crate chacha20poly1305,
-- which is a parameter.
pub mod Laws
pub mod Toy
pub mod ToyCrypto
pub mod Method
pub mod Symmetric
pub mod Steps
pub mod Xx
pub mod Ik
pub mod Xk
pub mod Calls
pub mod Keyless
pub mod Order
pub mod Zeroize
mod Tests
mod HandshakeTests
use microfips.Base.{
  ℕ, ◌+◌, ◌-◌, List, ◌++◌, length, ltb, if◌then◌else◌, replicate, Option, none, some,
}
use microfips.Base.{◌≡◌}
use microfips.Bytes.{le_bytes}
use microfips.Exec.{Exec, ok, err, panic, copy_into, slice, slice_from, ◌>>=◌}

pub data NoiseError : Type 0 where
  invalid_key invalid_message invalid_state invalid_public_key : NoiseError
  decryption_failed encryption_failed buffer_too_small : NoiseError
  message_too_short : (expected got : ℕ) → NoiseError
  message_too_large : (size max_size : ℕ) → NoiseError

abbrev pub tag_size : ℕ
tag_size = 16

-- `ChaCha20Poly1305` at a key of 32 bytes: in place, with the tag apart. Arguments are the key, the
-- nonce, the associated data, the text, and for `decrypt` the tag; `none` is the crate's error.
pub record Cipher : Type 0 where
  pub encrypt : List ℕ → List ℕ → List ℕ → List ℕ → Option (List ℕ × List ℕ)
  pub decrypt : List ℕ → List ℕ → List ℕ → List ℕ → List ℕ → Option (List ℕ)

-- What the crate documents of a cipher: both directions work in place, a tag has 16 bytes, and a
-- text that was encrypted is decrypted under the same key, nonce and associated data.
pub record IsAead (c : Cipher) : Type 0 where
  pub encrypt_size :
      (key nonce aad text body tag : List ℕ)
      → c.encrypt key nonce aad text ≡ some (body, tag)
      → (length body ≡ length text) × (length tag ≡ tag_size)
  pub decrypt_size :
      (key nonce aad body tag text : List ℕ)
      → c.decrypt key nonce aad body tag ≡ some text
      → length text ≡ length body
  pub decrypt_encrypt :
      (key nonce aad text body tag : List ℕ)
      → c.encrypt key nonce aad text ≡ some (body, tag)
      → c.decrypt key nonce aad body tag ≡ some text

abbrev pub make_nonce : ℕ → List ℕ
make_nonce n = replicate 4 0 ++ le_bytes 8 n

module _ (c : Cipher) where
  -- The bytes of `out` are replaced by the text, then by the encrypted text and its tag.
  sealed_into : ℕ → List ℕ → Option (List ℕ × List ℕ) → Exec NoiseError (ℕ × List ℕ)
  sealed_into len out none = err encryption_failed
  sealed_into len out (some (body, tag)) = do
    with_body ← copy_into out 0 len body
    whole ← copy_into with_body len (len + tag_size) tag
    ok (len + tag_size, whole)

  unfoldable pub aead_encrypt : List ℕ → ℕ → List ℕ → List ℕ → List ℕ → Exec NoiseError (ℕ × List ℕ)
  unfolding sealed_into
  aead_encrypt key nonce_ctr aad plaintext out =
      if ltb (length out) (length plaintext + tag_size) then err buffer_too_small else (do
        with_text ← copy_into out 0 (length plaintext) plaintext
        text ← slice with_text 0 (length plaintext)
        sealed_into (length plaintext) with_text (c.encrypt key (make_nonce nonce_ctr) aad text))

  unfoldable pub opened_into : ℕ → List ℕ → Option (List ℕ) → Exec NoiseError (ℕ × List ℕ)
  opened_into len out none = err decryption_failed
  opened_into len out (some text) = do whole ← copy_into out 0 len text; ok (len, whole)

  unfoldable pub aead_decrypt : List ℕ → ℕ → List ℕ → List ℕ → List ℕ → Exec NoiseError (ℕ × List ℕ)
  aead_decrypt key nonce_ctr aad ciphertext out =
      if ltb (length ciphertext) tag_size
      then err invalid_message
      else if ltb (length out) (length ciphertext - tag_size)
      then err buffer_too_small
      else (do
        body ← slice ciphertext 0 (length ciphertext - tag_size)
        with_body ← copy_into out 0 (length ciphertext - tag_size) body
        tag ← slice_from ciphertext (length ciphertext - tag_size)
        text ← slice with_body 0 (length ciphertext - tag_size)
        opened_into (length ciphertext - tag_size) with_body
            (c.decrypt key (make_nonce nonce_ctr) aad text tag))
