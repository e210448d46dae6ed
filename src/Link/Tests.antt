-- ===== src/Link/Tests.antt =====
-- Frames between two sides, over the toy cipher.
use microfips.Base.{ℕ, List, [], ◌∷◌, ◌++◌, drop, replicate, length, ◌≡◌, refl, arith, some}
use microfips.Exec.{ok}
use microfips.Exec.Post.{Returns}
use microfips.Noise.Toy.{toy, toy-IsAead, tag_of}
use microfips.Replay.{ReplayWindow, new}
use microfips.Replay.Window.{new-Represents}
use microfips.Fmp.{xx}
use microfips.Fmp.Build.{as_u16}
use microfips.Link.{encrypt_and_assemble, decrypt_established_frame}
use microfips.Link.Receive.{Tracks}
use microfips.Link.Stream.{receive_all, DeliversOnce, receive_all-DeliversOnce}
use microfips.Link.Frame.{header_of, inner_of}
use microfips.Link.RoundTrip.{delivered, decrypt-encrypt_and_assemble}

new-Tracks : Tracks new []
unfolding new
new-Tracks = record { represents = new-Represents; is_u64 = omega arith; once = tt }

abbrev key : List ℕ
key = replicate 32 7

-- Timestamp 1000, message type 0x51, two bytes of payload.
abbrev inner : List ℕ
inner = inner_of 1000 81 (1 ∷ 2 ∷ [])

decrypt-encrypt_and_assemble_example :
    (frame : List ℕ) × (encrypt_and_assemble toy xx 64 5 9 0 inner key (replicate 64 0)
      ≡ ok (length frame, frame ++ drop (length frame) (replicate 64 0)))
    × (w' : ReplayWindow) × (decrypt_established_frame toy xx 64 key frame (replicate 32 0) new
        ≡ ok (some (delivered 9 1000 81 (1 ∷ 2 ∷ []) (length frame)), w'))
    × Tracks w' (9 ∷ [])
decrypt-encrypt_and_assemble_example =
    decrypt-encrypt_and_assemble toy xx key 5 9 0 1000 81 (1 ∷ 2 ∷ []) inner
      (tag_of (header_of xx 5 9 0 (as_u16 (length inner)))) (replicate 64 0) (replicate 32 0) new []
      toy-IsAead new-Tracks refl (omega arith) (omega arith) (omega arith) refl (omega arith)
      (omega arith)

abbrev sealed_frame : List ℕ
sealed_frame =
    (16 ∷ 0 ∷ 7 ∷ 0 ∷ 5 ∷ 0 ∷ 0 ∷ 0 ∷ 9 ∷ 0 ∷ 0 ∷ 0 ∷ 0 ∷ 0 ∷ 0 ∷ 0 ∷ [])
    ++ (232 ∷ 3 ∷ 0 ∷ 0 ∷ 81 ∷ 1 ∷ 2 ∷ [])
    ++ (16 ∷ 0 ∷ 7 ∷ 0 ∷ 5 ∷ 0 ∷ 0 ∷ 0 ∷ 9 ∷ 0 ∷ 0 ∷ 0 ∷ 0 ∷ 0 ∷ 0 ∷ 0 ∷ [])

-- One frame twice, and one that is too short.
abbrev frames : List (List ℕ)
frames = sealed_frame ∷ sealed_frame ∷ (16 ∷ 0 ∷ []) ∷ []

receive_all-DeliversOnce_example :
    Returns (DeliversOnce []) (receive_all toy xx key (replicate 32 0) frames new)
receive_all-DeliversOnce_example =
    receive_all-DeliversOnce toy xx key (replicate 32 0) frames new [] toy-IsAead (ground arith)
      new-Tracks
