-- ===== src/Noise/Xx/Payload.antt =====
-- The extra payload that Noise XX carries behind a message.
use microfips.Base.{ℕ, ◌+◌, ◌≤◌, ◌<◌, ◌^◌, List, [], length, some, ◌≡◌, arith, refl}
use microfips.Exec.{ok}
use microfips.Exec.Write.{after}
use microfips.Noise.Symmetric.{Crypto, Symmetric, hashed, counted}
use microfips.Noise.Steps.{IsCrypto, cross}
use microfips.Noise.Xx.{NoiseXxInitiator, NoiseXxResponder}
use microfips.Noise.Xx.Initiator as Initiator
use microfips.Noise.Xx.Responder as Responder

-- Where both sides of Noise XX hold the same key schedule, with a key, a payload of less than four
-- gigabytes that one side encrypts is decrypted by the other, in both directions and for buffers
-- that are large enough, and both hold the same key schedule again.
pub decrypt-encrypt_payload :
    (c : Crypto) (i : NoiseXxInitiator) (r : NoiseXxResponder) (key text sent opened : List ℕ)
    → IsCrypto c
    → i.symmetric ≡ r.symmetric
    → r.symmetric.k ≡ some key
    → length text < 2 ^ 32
    → length text + 16 ≤ length sent
    → length text ≤ length opened
    → (bytes : List ℕ) × (t : Symmetric) × (Initiator.encrypt_payload c text sent i
        ≡ (ok (length text + 16, after bytes sent), record i { symmetric = t }))
      × (Responder.decrypt_payload c bytes opened r
          ≡ (ok (length text, after text opened), record r { symmetric = t }))
      × (Responder.encrypt_payload c text sent r
          ≡ (ok (length text + 16, after bytes sent), record r { symmetric = t }))
      × (Initiator.decrypt_payload c bytes opened i
          ≡ (ok (length text, after text opened), record i { symmetric = t }))
unfolding Initiator.encrypt_payload Responder.decrypt_payload Responder.encrypt_payload
    Initiator.decrypt_payload
decrypt-encrypt_payload c i r key text sent opened l same has short room fits =
    let (b, x) = cross c l r.symmetric key text has short in
    let seals = x.sealed [] sent 0 refl (omega arith) in
    let total : 0 + (length text + 16) ≡ length text + 16 = omega arith in
    let opens = x.opened_into opened fits in
    (
      b,
      hashed c b (counted r.symmetric),
      rw (same, seals, total),
      rw opens,
      rw (seals, total),
      rw (same, opens),
    )
