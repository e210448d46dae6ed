-- ===== src/Fsp/Tests.antt =====
-- Session messages at concrete inputs.
use microfips.Base.{ℕ, List, [], ◌∷◌, ◌++◌, replicate, ◌≡◌, refl, arith}
use microfips.Exec.{ok, panic}
use microfips.Fsp.{fsp_prefix, phase_session_setup, phase_session_ack}
use microfips.Fsp.Build.{build_session_setup, build_session_ack}
use microfips.Fsp.Parse.{parse_session_setup_full, parse_session_ack}
use microfips.Fsp.RoundTrip.{WroteSession, parse-build_session}
use microfips.Fsp.Panics.{parse_session_panics}
use microfips.Fsp.Datagram.{FspDatagram}
use microfips.Fsp.Datagram.{fsp_strip_inner_header}
use microfips.Base.{length}
use microfips.Exec.Write.{after}
use microfips.Noise.{aead_decrypt}
use microfips.Noise.Toy.{toy, toy-IsAead, tag_of}
use microfips.Fsp.Encrypted.{build_fsp_data_message, parse_fsp_encrypted_header}
use microfips.Fsp.DataMessage.{open-build_fsp_data_message}

abbrev alice : List ℕ
alice = replicate 16 1

abbrev bob : List ℕ
bob = replicate 16 2

abbrev handshake : List ℕ
handshake = 7 ∷ 8 ∷ []

parse-build_session_example :
    ((bytes : List ℕ) × WroteSession
        (build_session_setup 3 (alice ∷ []) (bob ∷ []) handshake (replicate 50 0))
        (replicate 50 0)
        bytes
      × (parse_session_setup_full bytes ≡ ok (3, alice, handshake)))
    × ((bytes : List ℕ) × WroteSession
          (build_session_ack (alice ∷ []) (bob ∷ []) handshake (replicate 50 0))
          (replicate 50 0)
          bytes
        × (parse_session_ack bytes ≡ ok handshake))
parse-build_session_example =
    parse-build_session 3 alice [] (bob ∷ []) handshake (replicate 50 0) (refl, tt) (refl, tt) refl
      (omega arith) (omega arith)

-- The two messages that end with the coordinates of their source.
abbrev cut_short : List ℕ
cut_short = 0 ∷ 1 ∷ 0 ∷ alice

parse_session_panics_example :
    (parse_session_setup_full (fsp_prefix phase_session_setup 0 19 ++ cut_short) ≡ panic)
    × (parse_session_ack (fsp_prefix phase_session_ack 0 19 ++ cut_short) ≡ panic)
parse_session_panics_example =
    parse_session_panics 0 alice [] [] (refl, tt) (omega arith) (omega arith)

abbrev datagram : FspDatagram
datagram = record { src_port = 256; dst_port = 2121; payload = handshake }

abbrev key : List ℕ
key = replicate 32 7

open-build_fsp_data_message_example :
    (header sealed inner : List ℕ) × (build_fsp_data_message toy 9 1000 handshake key
        (replicate 40 0)
      ≡ ok (36, after (header ++ sealed) (replicate 40 0)))
    × (parse_fsp_encrypted_header (header ++ sealed) ≡ ok (0, 9, header, sealed))
    × (aead_decrypt toy key 9 header sealed (replicate 512 0)
        ≡ ok (length inner, after inner (replicate 512 0)))
    × (fsp_strip_inner_header inner ≡ ok (1000, 16, 0, handshake))
open-build_fsp_data_message_example =
    open-build_fsp_data_message toy 9 1000 handshake key (replicate 40 0) toy-IsAead
      (λ nonce aad text _. ((text, tag_of aad), refl)) (omega arith) (omega arith) (omega arith)
      (omega arith)
