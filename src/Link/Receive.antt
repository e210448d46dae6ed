-- ===== src/Link/Receive.antt =====
-- What the receive path does to the replay window, frame by frame and over a run of frames.
use microfips.Base.{ℕ, ◌<◌, ◌^◌, List, [], ◌∷◌, length, Option, none, some, true, ◌≡◌, refl}
use microfips.Base.{◌⊎◌, inl, inr, arith, Bool-cases, subst}
use microfips.Exec.{Exec, ok, err, panic, Absent}
use microfips.Exec.Laws.{slice_lem, slice_from_lem}
use microfips.Exec.Post.{Gives, Returns, Returns-bind, IsNotPanic-Gives}
use microfips.Bytes.{IsBytes}
use microfips.Noise.{Cipher, IsAead, aead_decrypt}
use microfips.Noise.Laws.{Fits, aead_decrypt-Fits}
use microfips.Replay.{ReplayWindow, accept}
use microfips.Replay.Spec.{acceptable, highest_of, IsDistinct}
use microfips.Replay.Window.{Represents, check_refines}
use microfips.Replay.Accept.{accept_refines}
use microfips.Fmp.{Wire, FmpMessage, msg1, msg2, msg3, established}
use microfips.Fmp.Parse.{parse_message, strip_inner_header}
use microfips.Fmp.Total.{parse_message-IsNotPanic, strip_inner_header-IsNotPanic}
use microfips.Fmp.Header.{
  EncryptedHeader, parse_encrypted_header, IsHeaderOf, parse_encrypted_header-IsHeaderOf,
}
use microfips.Link.{
  DecryptedFrame, Received, attempt, split_frame, read_plaintext, open_frame, dispatch,
}
use microfips.Link.{decrypt_established_frame}

-- The window stands for the history of accepted counters, each a `u64` and accepted once.
pub record Tracks (w : ReplayWindow) (h : List ℕ) : Type 0 where
  pub represents : Represents w h
  pub is_u64 : w.highest < 2 ^ 64
  pub once : IsDistinct h

-- A frame, if there is one, bears the counter `n`.
abbrev pub Bears : ℕ → Option DecryptedFrame → Type 0
Bears n none = Unit
Bears n (some frame) = frame.counter ≡ n

-- What a frame may do: nothing, or add one counter that the history lets in.
abbrev pub Outcome : ReplayWindow → List ℕ → Received → Type 0
Outcome w h r =
    (r ≡ (none, w)) ⊎ ((n : ℕ) × (acceptable h n ≡ true) × Tracks r.1 (n ∷ h) × Bears n r.0)

Returns-attempt {ℓ κ ι} :
    {E : Type ℓ} {A : Type κ} {B : Type ι} (P : A → Type 0) (Q : B → Type 0) (m : Exec E A)
    (f : A → Exec Absent B) (other : Exec Absent B)
    → Gives P m
    → ((a : A) → P a → Returns Q (f a))
    → Returns Q other
    → Returns Q (attempt m f other)
Returns-attempt P Q (ok a) f other h k z = k a h
Returns-attempt P Q (err e) f other h k z = z
Returns-attempt P Q panic f other h k z = absurd h

split_frame-Bears :
    (enc : EncryptedHeader) (n : ℕ) (inner : ℕ × List ℕ)
    → Bears enc.counter (split_frame enc n inner)
unfolding split_frame
split_frame-Bears enc n (timestamp, []) = tt
split_frame-Bears enc n (timestamp, msg_type ∷ payload) = refl

read_plaintext-Bears :
    (enc : EncryptedHeader) (n : ℕ) (plaintext : List ℕ)
    → Returns (Bears enc.counter) (read_plaintext enc n plaintext)
unfolding read_plaintext
read_plaintext-Bears enc n plaintext =
    Returns-attempt (λ p. Unit {0}) (Bears enc.counter) (strip_inner_header plaintext) _ _
      (IsNotPanic-Gives (strip_inner_header plaintext) (strip_inner_header-IsNotPanic plaintext))
      (λ inner _. split_frame-Bears enc n inner) tt

module _ (c : Cipher) (l : IsAead c) (wire : Wire) (kr dec_buf : List ℕ) {w : ReplayWindow}
    {h : List ℕ} (t : Tracks w h) where
  highest_u64 : highest_of h < 2 ^ 64
  highest_u64 = subst (λ n. n < 2 ^ 64) t.represents.top t.is_u64

  -- A fresh counter of a frame that was opened joins the history.
  pub accept-Tracks :
      (n : ℕ)
      → n < 2 ^ 64
      → acceptable h n ≡ true
      → (w' : ReplayWindow) × (accept 64 w n ≡ ok w') × Tracks w' (n ∷ h)
  accept-Tracks n u64 fresh =
      let accepted =
        accept_refines n t.represents 64 (omega (arith, t.is_u64)) (omega arith) fresh in
      (
        accepted.0,
        accepted.1,
        record {
          represents = accepted.2;
          is_u64 = ground (arith, accepted.2.top, highest_u64);
          once = (ground arith, t.once);
        },
      )

  open_frame-Outcome :
      (buf : List ℕ) (enc : EncryptedHeader)
      → IsHeaderOf buf enc
      → Returns (Outcome w h) (open_frame c wire 64 kr buf dec_buf w enc)
  unfolding open_frame
  open_frame-Outcome buf enc (long, u64) =
      let checked = check_refines 64 enc.counter t.represents (omega (arith, t.is_u64)) in
      elim (Bool-cases (acceptable h enc.counter)) [
        | inr old ↦ rw (checked, old) (inl refl)
        | inl fresh ↦
            let (w', accepts, t') = accept-Tracks enc.counter u64 fresh in
            rw (checked, fresh, slice_from_lem buf 16 long)
              (Returns-attempt (Fits dec_buf) (Outcome w h)
                (aead_decrypt c kr enc.counter enc.header_bytes _ dec_buf) _ _
                (aead_decrypt-Fits c kr enc.counter enc.header_bytes _ dec_buf l)
                (λ opened (inside, size).
                  rw (accepts, slice_lem opened.1 0 opened.0 (omega arith) inside)
                    (Returns-bind (Bears enc.counter) (Outcome w h)
                      (read_plaintext enc (length buf) _) _
                      (read_plaintext-Bears enc (length buf) _)
                      (λ frame bears. inr (enc.counter, fresh, t', bears))))
                (inl refl))
      ]

  dispatch-Outcome :
      (buf : List ℕ) (msg : FmpMessage)
      → IsBytes buf
      → Returns (Outcome w h) (dispatch c wire 64 kr buf dec_buf w msg)
  unfolding dispatch
  dispatch-Outcome buf (msg1 s n) bytes = inl refl
  dispatch-Outcome buf (msg2 s r n) bytes = inl refl
  dispatch-Outcome buf (msg3 s r n) bytes = inl refl
  dispatch-Outcome buf (established r n e) bytes =
      Returns-attempt (IsHeaderOf buf) (Outcome w h) (parse_encrypted_header wire buf) _ _
        (parse_encrypted_header-IsHeaderOf wire buf bytes)
        (λ enc header. open_frame-Outcome buf enc header) (inl refl)

  pub decrypt_established_frame-Outcome :
      (buf : List ℕ)
      → IsBytes buf
      → Returns (Outcome w h) (decrypt_established_frame c wire 64 kr buf dec_buf w)
  unfolding decrypt_established_frame
  decrypt_established_frame-Outcome buf bytes =
      Returns-attempt (λ m. Unit {0}) (Outcome w h) (parse_message wire buf) _ _
        (IsNotPanic-Gives (parse_message wire buf) (parse_message-IsNotPanic wire buf))
        (λ msg _. dispatch-Outcome buf msg bytes) (inl refl)
