-- ===== src/Fmp/Tests.antt =====
-- Frames at concrete inputs.
use microfips.Base.{ℕ, ◌+◌, ◌*◌, List, [], ◌∷◌, drop, replicate, ◌≡◌, refl, arith}
use microfips.Exec.{ok, IsNotPanic}
use microfips.Exec.Post.{Gives}
use microfips.Fmp.{Wire, ik, xx, fmp_version, msg1, msg2, msg3, established, phase_established}
use microfips.Fmp.Build.{build_msg1, build_msg2, build_msg3}
use microfips.Fmp.Parse.{parse_message}
use microfips.Fmp.Views.{
  Shows, views_of_frames, parse_msg1_header, parse_msg2_header, parse_msg3_header,
}
use microfips.Fmp.RoundTrip.{Wrote, parse-build_msg2_msg3}
use microfips.Fmp.Total.{parse_message-IsNotPanic}
use microfips.Fmp.Sound.{parse_message_sound, body_bytes}
use microfips.Fmp.Header.{IsHeaderOf, parse_encrypted_header, parse_encrypted_header-IsHeaderOf}

abbrev payload : List ℕ
payload = 1 ∷ 2 ∷ 3 ∷ []

parse-build_msg2_msg3_example :
    ((bytes : List ℕ) × Wrote (build_msg2 ik 1 2 payload (replicate 15 0)) (replicate 15 0) bytes
      × (parse_message ik bytes ≡ ok (msg2 1 2 payload)))
    × ((bytes : List ℕ) × Wrote (build_msg3 ik 1 2 payload (replicate 15 0)) (replicate 15 0) bytes
        × (parse_message ik bytes ≡ ok (msg3 1 2 payload)))
parse-build_msg2_msg3_example =
    parse-build_msg2_msg3 ik 1 2 payload (replicate 15 0) (omega arith) (omega arith) (omega arith)

-- A truncated first message.
parse_message-IsNotPanic_example : IsNotPanic (parse_message xx (17 ∷ 0 ∷ 4 ∷ 0 ∷ 9 ∷ []))
parse_message-IsNotPanic_example = parse_message-IsNotPanic xx (17 ∷ 0 ∷ 4 ∷ 0 ∷ 9 ∷ [])

abbrev established_frame : List ℕ
established_frame = 16 ∷ 0 ∷ 4 ∷ 0 ∷ 5 ∷ 0 ∷ 0 ∷ 0 ∷ 7 ∷ 0 ∷ 0 ∷ 0 ∷ 0 ∷ 0 ∷ 0 ∷ 0 ∷ 42 ∷ []

established_frame-parsed : parse_message xx established_frame ≡ ok (established 5 7 (42 ∷ []))
unfolding parse_message microfips.Fmp.parse_prefix microfips.Fmp.Parse.parse_phase
    microfips.Fmp.Parse.parse_established
established_frame-parsed =
    unfold microfips.Exec.slice_from microfips.Exec.read_le microfips.Exec.slice
      microfips.Exec.index in
    refl

parse_message_sound_example :
    (16 ≡ fmp_version xx * 16 + phase_established)
    × (drop 4 established_frame ≡ body_bytes (established 5 7 (42 ∷ [])))
parse_message_sound_example =
    parse_message_sound xx established_frame (ground arith) established_frame-parsed

parse_encrypted_header-IsHeaderOf_example :
    Gives (IsHeaderOf established_frame) (parse_encrypted_header xx established_frame)
parse_encrypted_header-IsHeaderOf_example =
    parse_encrypted_header-IsHeaderOf xx established_frame (ground arith)

-- A base and a negotiating third message of XX have payloads of 73 bytes and more.
views_of_frames_example :
    Shows
      (build_msg1 xx 5 (replicate 33 1) (replicate 200 0))
      (replicate 200 0)
      (parse_msg1_header xx)
      (record { sender_idx = 5; noise_msg1_offset = 8 })
    × Shows
        (build_msg2 xx 5 6 (replicate 106 2) (replicate 200 0))
        (replicate 200 0)
        (parse_msg2_header xx)
        (record { sender_idx = 5; receiver_idx = 6; noise_msg2_offset = 12 })
    × Shows
        (build_msg3 xx 5 6 (replicate 73 3) (replicate 200 0))
        (replicate 200 0)
        (parse_msg3_header xx)
        (record { sender_idx = 5; receiver_idx = 6; noise_msg3_offset = 12 })
    × Shows
        (build_msg3 xx 5 6 (replicate 122 4) (replicate 200 0))
        (replicate 200 0)
        (parse_msg2_header xx)
        (record { sender_idx = 5; receiver_idx = 6; noise_msg2_offset = 12 })
    × Shows
        (build_msg2 xx 5 6 (replicate 122 4) (replicate 200 0))
        (replicate 200 0)
        (parse_msg3_header xx)
        (record { sender_idx = 5; receiver_idx = 6; noise_msg3_offset = 12 })
views_of_frames_example =
    views_of_frames xx 5 6 (replicate 33 1) (replicate 106 2) (replicate 73 3) (replicate 122 4)
      (replicate 200 0) (omega arith) (omega arith) refl (omega arith) (omega arith) (omega arith)
      (omega arith) (omega arith) (omega arith) (omega arith) (omega arith)
