-- ===== src/Noise/Laws.antt =====
-- `aead_decrypt` undoes `aead_encrypt`, and never panics.
use microfips.Base.{
  ℕ, ◌+◌, ◌-◌, ◌≤◌, List, [], ◌++◌, length, length-append, length-drop, length-take, take, drop,
  take-append-drop,
}
use microfips.Base.{
  ◌≡◌, refl, arith, ap, ◌∙◌, sym, subst, Option, none, some, le→ltb, ltb→le, ltb, false,
}
use microfips.Base.{Bool-cases, inl, inr}
use microfips.Exec.{ok}
use microfips.Exec.Post.{Gives}
use microfips.Exec.Laws.{copy_into-next, copy_into-front, slice-append, slice_from-append}
use microfips.Noise.{
  Cipher, IsAead, NoiseError, aead_encrypt, aead_decrypt, opened_into, make_nonce, tag_size,
}

-- The cipher's two parts, the body and the tag, behind one another are what `aead_encrypt` writes.
pub aead_encrypt_lem :
    (c : Cipher) (l : IsAead c) (key : List ℕ) (ctr : ℕ) (aad text body tag out : List ℕ)
    → c.encrypt key (make_nonce ctr) aad text ≡ some (body, tag)
    → length text + tag_size ≤ length out
    → aead_encrypt c key ctr aad text out
      ≡ ok (length text + tag_size, (body ++ tag) ++ drop (length text + tag_size) out)
unfolding aead_encrypt
aead_encrypt_lem c l key ctr aad text body tag out e fits =
    let sizes = l.encrypt_size key (make_nonce ctr) aad text body tag e in
    rw
      (
        le→ltb (length out) (length text + tag_size) fits,
        copy_into-next [] text out 0 (length text) refl (omega arith) (omega arith),
        slice-append [] text (drop (length text) out) 0 (length text) refl (omega arith),
        e,
      )
      (rw (
        copy_into-front text body (drop (length text) out) (length text) sizes.0 (sym sizes.0),
        copy_into-next body tag out (length text) (length text + tag_size) (sym sizes.0)
            (omega arith) fits,
      ))

-- `aead_decrypt` at a body with its tag hands both to the cipher.
aead_decrypt_opens :
    (c : Cipher) (key : List ℕ) (ctr : ℕ) (aad body tag out : List ℕ)
    → length tag ≡ tag_size
    → length body ≤ length out
    → aead_decrypt c key ctr aad (body ++ tag) out
      ≡ opened_into c
          (length body)
          (body ++ drop (length body) out)
          (c.decrypt key (make_nonce ctr) aad body tag)
unfolding aead_decrypt
aead_decrypt_opens c key ctr aad body tag out tagged fits =
    let whole : length (body ++ tag) ≡ length body + tag_size =
      omega (arith, length-append body tag) in
    let size : length (body ++ tag) - tag_size ≡ length body = omega (arith, whole) in
    let long : ltb (length (body ++ tag)) tag_size ≡ false =
      le→ltb (length (body ++ tag)) tag_size (omega (arith, whole)) in
    rw (
      long,
      size,
      le→ltb (length out) (length body) fits,
      slice-append {E = NoiseError} [] body tag 0 (length body) refl (omega arith),
      copy_into-next [] body out 0 (length body) refl (omega arith) fits,
      slice_from-append body tag (length body) refl,
      slice-append [] body (drop (length body) out) 0 (length body) refl (omega arith),
    )

opened_into-some :
    (c : Cipher) (body text out : List ℕ)
    → length text ≡ length body
    → opened_into c (length body) (body ++ drop (length body) out) (some text)
      ≡ ok (length body, text ++ drop (length body) out)
unfolding opened_into
opened_into-some c body text out kept =
    rw (copy_into-front body text (drop (length body) out) (length body) kept (sym kept))

-- The text that the cipher finds stands at the front of `out`.
pub aead_decrypt_lem :
    (c : Cipher) (l : IsAead c) (key : List ℕ) (ctr : ℕ) (aad text body tag out : List ℕ)
    → c.decrypt key (make_nonce ctr) aad body tag ≡ some text
    → length tag ≡ tag_size
    → length body ≤ length out
    → aead_decrypt c key ctr aad (body ++ tag) out
      ≡ ok (length body, text ++ drop (length body) out)
aead_decrypt_lem c l key ctr aad text body tag out e tagged fits =
    aead_decrypt_opens c key ctr aad body tag out tagged fits
    ∙ ap (opened_into c (length body) (body ++ drop (length body) out)) e
    ∙ opened_into-some c body text out (l.decrypt_size key (make_nonce ctr) aad body tag text e)

-- A text that the cipher can encrypt, sealed into a buffer that holds it and opened again under
-- the same key, counter and associated data, comes back, at the front of the second buffer.
pub aead_decrypt-aead_encrypt :
    (c : Cipher) (key : List ℕ) (ctr : ℕ) (aad text body tag out out' : List ℕ)
    → IsAead c
    → c.encrypt key (make_nonce ctr) aad text ≡ some (body, tag)
    → length text + tag_size ≤ length out
    → length text ≤ length out'
    → (sealed_text : List ℕ) × (aead_encrypt c key ctr aad text out
        ≡ ok (length sealed_text, sealed_text ++ drop (length sealed_text) out))
      × (aead_decrypt c key ctr aad sealed_text out'
          ≡ ok (length text, text ++ drop (length text) out'))
aead_decrypt-aead_encrypt c key ctr aad text body tag out out' l e fits fits' =
    let sizes = l.encrypt_size key (make_nonce ctr) aad text body tag e in
    let whole : length (body ++ tag) ≡ length text + tag_size =
      omega (arith, length-append body tag, sizes.0, sizes.1) in
    (
      body ++ tag,
      rw whole (aead_encrypt_lem c l key ctr aad text body tag out e fits),
      rw (← sizes.0) (
          aead_decrypt_lem c l key ctr aad text body tag out'
            (l.decrypt_encrypt key (make_nonce ctr) aad text body tag e) sizes.1 (omega arith)),
    )

-- The result of `aead_decrypt` lies in a buffer of the size of `out`.
abbrev pub Fits : List ℕ → ℕ × List ℕ → Type 0
Fits out opened = (opened.0 ≤ length opened.1) × (length opened.1 ≡ length out)

opened_into-Fits :
    (c : Cipher) (body out : List ℕ) (found : Option (List ℕ))
    → length body ≤ length out
    → ((text : List ℕ) → found ≡ some text → length text ≡ length body)
    → Gives (Fits out) (opened_into c (length body) (body ++ drop (length body) out) found)
unfolding opened_into
opened_into-Fits c body out none fits size = tt
opened_into-Fits c body out (some text) fits size =
    rw (opened_into-some c body text out (size text refl)) (
      omega (
        arith,
        length-append text (drop (length body) out),
        length-drop (length body) out,
        size text refl,
      ))

-- A ciphertext is too short for a tag, too long for `out`, or handed to the cipher; whatever a
-- cipher that works in place answers, `aead_decrypt` does not panic, and what it opens lies inside
-- a buffer of the size of `out`.
pub aead_decrypt-Fits :
    (c : Cipher) (key : List ℕ) (ctr : ℕ) (aad ciphertext out : List ℕ)
    → IsAead c
    → Gives (Fits out) (aead_decrypt c key ctr aad ciphertext out)
unfolding aead_decrypt
aead_decrypt-Fits c key ctr aad ciphertext out l =
    elim (Bool-cases (ltb (length ciphertext) tag_size)) [
      | inl short ↦ rw short tt
      | inr long ↦ elim (Bool-cases (ltb (length out) (length ciphertext - tag_size))) [
        | inl small ↦ rw (long, small) tt
        | inr fits ↦ cut (ltb→le _ _ long) (ltb→le _ _ fits)
      ]
    ]
  where
    n : ℕ
    n = length ciphertext - tag_size

    cut :
        tag_size ≤ length ciphertext
        → n ≤ length out
        → Gives (Fits out) (aead_decrypt c key ctr aad ciphertext out)
    cut long fits =
        let size : length (take n ciphertext) ≡ n = omega (arith, length-take n ciphertext) in
        let tagged : length (drop n ciphertext) ≡ tag_size =
          omega (arith, length-drop n ciphertext) in
        subst (λ t. Gives (Fits out) (aead_decrypt c key ctr aad t out))
          (take-append-drop n ciphertext)
          (rw
            (aead_decrypt_opens c key ctr aad (take n ciphertext) (drop n ciphertext) out tagged
              (omega (arith, size)))
            (opened_into-Fits c (take n ciphertext) out
              (c.decrypt key (make_nonce ctr) aad (take n ciphertext) (drop n ciphertext))
              (omega (arith, size)) (λ text e. l.decrypt_size key (make_nonce ctr) aad _ _ text e)))
