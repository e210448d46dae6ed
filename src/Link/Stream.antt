-- ===== src/Link/Stream.antt =====
-- A run of received frames, in any order and with any repetition: what is delivered of it.
use microfips.Base.{ℕ, List, [], ◌∷◌, Option, none, some, true, false, ◌≡◌, refl, arith}
use microfips.Base.{inl, inr}
use microfips.Exec.{Exec, ok, Absent, ◌>>=◌}
use microfips.Exec.Post.{Returns, Returns-bind}
use microfips.Bytes.{IsBytes}
use microfips.Noise.{Cipher, IsAead}
use microfips.Replay.{ReplayWindow}
use microfips.Replay.Spec.{contains, IsDistinct, acceptable}
use microfips.Fmp.{Wire}
use microfips.Link.{DecryptedFrame, decrypt_established_frame}
use microfips.Link.Receive.{Tracks, Outcome, Bears, decrypt_established_frame-Outcome}

abbrev pub delivered_before : Option DecryptedFrame → List ℕ → List ℕ
delivered_before none later = later
delivered_before (some frame) later = frame.counter ∷ later

module _ (c : Cipher) (wire : Wire) (kr dec_buf : List ℕ) where
  -- The counters of the frames that are delivered, in order.
  unfoldable pub receive_all : List (List ℕ) → ReplayWindow → Exec Absent (List ℕ)
  receive_all [] w = ok []
  receive_all (buf ∷ frames) w = do
    received ← decrypt_established_frame c wire 64 kr buf dec_buf w
    later ← receive_all frames received.1
    ok (delivered_before received.0 later)

abbrev pub AllBytes : List (List ℕ) → Type 0
AllBytes [] = Unit
AllBytes (buf ∷ frames) = IsBytes buf × AllBytes frames

-- No counter of the list stands in the history.
abbrev pub IsNew : List ℕ → List ℕ → Type 0
IsNew h [] = Unit
IsNew h (n ∷ ns) = (contains h n ≡ false) × IsNew h ns

cons-IsNew : (h : List ℕ) (n : ℕ) (ns : List ℕ) → IsNew (n ∷ h) ns → IsNew h ns
cons-IsNew h n [] new = tt
cons-IsNew h n (m ∷ ns) (new, later) = (ground arith, cons-IsNew h n ns later)

apart : (h : List ℕ) (n : ℕ) (ns : List ℕ) → IsNew (n ∷ h) ns → contains ns n ≡ false
apart h n [] new = refl
apart h n (m ∷ ns) (new, later) = ground (arith, apart h n ns later)

-- What a run delivers: counters that are new to the history, and each once.
abbrev pub DeliversOnce : List ℕ → List ℕ → Type 0
DeliversOnce h ns = IsNew h ns × IsDistinct ns

delivered_before-DeliversOnce :
    (w : ReplayWindow) (h ns : List ℕ) (n : ℕ) (frame : Option DecryptedFrame)
    → acceptable h n ≡ true
    → Bears n frame
    → DeliversOnce (n ∷ h) ns
    → DeliversOnce h (delivered_before frame ns)
delivered_before-DeliversOnce w h ns n none fresh bears (new, once) = (cons-IsNew h n ns new, once)
delivered_before-DeliversOnce w h ns n (some frame) fresh bears (new, once) =
    rw bears ((ground arith, cons-IsNew h n ns new), (apart h n ns new, once))

-- A window that tracks a history, an AEAD cipher, a 64-bit `usize`, and a run of frames of bytes, in
-- any order and repeated at will: the receive path does not panic on any of them, and the frames it
-- delivers have distinct counters, none of which is in the history.
pub receive_all-DeliversOnce :
    (c : Cipher) (wire : Wire) (kr dec_buf : List ℕ) (frames : List (List ℕ)) (w : ReplayWindow)
    (h : List ℕ)
    → IsAead c
    → AllBytes frames
    → Tracks w h
    → Returns (DeliversOnce h) (receive_all c wire kr dec_buf frames w)
unfolding receive_all
receive_all-DeliversOnce c wire kr dec_buf [] w h l bytes t = (tt, tt)
receive_all-DeliversOnce c wire kr dec_buf (buf ∷ frames) w h l (bytes, more) t =
    Returns-bind (Outcome w h) (DeliversOnce h)
      (decrypt_established_frame c wire 64 kr buf dec_buf w) _
      (decrypt_established_frame-Outcome c l wire kr dec_buf t buf bytes)
      (λ received outcome. elim outcome [
        | inl none_new ↦ rw none_new (
            Returns-bind (DeliversOnce h) (DeliversOnce h) (receive_all c wire kr dec_buf frames w)
              _ (receive_all-DeliversOnce c wire kr dec_buf frames w h l more t)
              (λ later once. once))
        | inr (n, fresh, t', bears) ↦
            Returns-bind (DeliversOnce (n ∷ h)) (DeliversOnce h)
              (receive_all c wire kr dec_buf frames received.1) _
              (receive_all-DeliversOnce c wire kr dec_buf frames received.1 (n ∷ h) l more t')
              (λ later once. delivered_before-DeliversOnce w h later n received.0 fresh bears once)
      ])
