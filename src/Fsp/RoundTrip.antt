-- ===== src/Fsp/RoundTrip.antt =====
-- What the builders of session messages write is what the parsers read.
use microfips.Base.{ℕ, ◌+◌, ◌*◌, ◌%◌, ◌^◌, ◌≤◌, ◌<◌, List, [], ◌∷◌, ◌++◌, length, drop, ◌==◌}
use microfips.Base.{◌≡◌, refl, arith, ap, sym, ◌∙◌, append_assoc, le→ltb, false}
use microfips.Bytes.{le_bytes}
use microfips.Exec.{Exec, ok, slice}
use microfips.Exec.Laws.{index_lem, slice-append}
use microfips.Fsp.{FspError, fsp_prefix, phase_session_setup, phase_session_ack}
use microfips.Fsp.Build.{is_empty, body_len, build_session_setup, build_session_ack}
use microfips.Fsp.Parse.{
  read_u16, open_body, parse_dest, parse_session_setup_full, parse_session_ack,
}
use microfips.Fsp.Written.{
  IsAddrs, joined, counted, sized, session_body, session_bytes, length-counted,
}
use microfips.Fsp.Written.{length-session_body, build_session_lem}
use microfips.Exec.Write.{after}
use microfips.Fsp.Body.{read_u16-append, open_body-prefix, parse_dest-sized}

-- `result` wrote `bytes` at the front of `out`, and left the rest of `out` as it was.
abbrev pub WroteSession : Exec FspError (ℕ × List ℕ) → List ℕ → List ℕ → Type 0
WroteSession result out bytes = result ≡ ok (length bytes, bytes ++ drop (length bytes) out)

module _ (flags : ℕ) (first : List ℕ) (more dest : List (List ℕ)) (handshake : List ℕ)
    (hs : IsAddrs (first ∷ more)) (hd : IsAddrs dest)
    (small : body_len (first ∷ more) dest handshake < 2 ^ 16) where
  abbrev src : List (List ℕ)
  src = first ∷ more

  abbrev message : List ℕ
  message = session_body flags src dest handshake

  size : length message ≡ body_len src dest handshake
  size = length-session_body flags src dest handshake hs hd

  open_session :
      (phase : ℕ)
      → phase < 16
      → open_body phase (session_bytes phase flags src dest handshake) ≡ ok message
  open_session phase low =
      let same : body_len src dest handshake % 2 ^ 16 ≡ length message = omega (arith, size) in
      ap (λ n. open_body phase (fsp_prefix phase 0 n ++ message)) same
      ∙ open_body-prefix phase message low (omega (arith, size))

  read_src_count : read_u16 message 1 ≡ ok (length src)
  read_src_count =
      let same : length src % 2 ^ 16 ≡ length src = omega arith in
      rw same (
        read_u16-append (flags ∷ []) (joined src ++ (counted dest ++ sized handshake)) (length src)
          1 refl (omega arith))

  slice_first : slice {E = FspError} message 3 19 ≡ ok first
  slice_first =
      let rest = counted dest ++ sized handshake in
      let head = flags ∷ le_bytes 2 (length src % 2 ^ 16) in
      ap (λ t. slice (head ++ t) 3 19) (append_assoc first (joined more) rest)
      ∙ slice-append head first (joined more ++ rest) 3 19 refl (omega (arith, hs.0))

  parse_behind_src : parse_dest message (1 + (2 + length src * 16)) ≡ ok handshake
  parse_behind_src =
      let end : 1 + (2 + length src * 16) ≡ length (flags ∷ counted src) =
        omega (arith, length-counted src hs) in
      ap (parse_dest message) end
      ∙ parse_dest-sized (flags ∷ counted src) dest handshake hd (omega arith) (omega arith)

  parse_session_setup_full-bytes :
      parse_session_setup_full (session_bytes phase_session_setup flags src dest handshake)
      ≡ ok (flags, first, handshake)
  unfolding parse_session_setup_full
  parse_session_setup_full-bytes =
      let some : (length src == 0) ≡ false = ground arith in
      rw (
        open_session phase_session_setup (omega arith),
        le→ltb (length message) 19 (omega (arith, size)),
        index_lem message 0 (omega (arith, size)),
        read_src_count,
        some,
        slice_first,
        le→ltb (length message) (1 + (2 + length src * 16)) (omega (arith, size)),
        parse_behind_src,
      )

  parse_session_ack-bytes :
      parse_session_ack (session_bytes phase_session_ack flags src dest handshake) ≡ ok handshake
  unfolding parse_session_ack
  parse_session_ack-bytes =
      let some : (length message == 0) ≡ false = ground (arith, size) in
      rw (
        open_session phase_session_ack (omega arith),
        some,
        index_lem message 0 (omega (arith, size)),
        read_src_count,
        le→ltb (length message) (1 + (2 + length src * 16)) (omega (arith, size)),
        parse_behind_src,
      )

-- A setup and an acknowledgement with some source and some destination coordinates, all node
-- addresses, and a body that a `u16` can count, in a buffer that holds them: each is written whole
-- at the front of the buffer, with the rest left as it was, and parsed; the setup gives its flags,
-- its first source coordinate and its handshake, the acknowledgement its handshake.
pub parse-build_session :
    (flags : ℕ) (first : List ℕ) (more dest : List (List ℕ)) (handshake out : List ℕ)
    → IsAddrs (first ∷ more)
    → IsAddrs dest
    → is_empty dest ≡ false
    → body_len (first ∷ more) dest handshake < 2 ^ 16
    → 4 + body_len (first ∷ more) dest handshake ≤ length out
    → ((bytes : List ℕ) × WroteSession
          (build_session_setup flags (first ∷ more) dest handshake out)
          out
          bytes
        × (parse_session_setup_full bytes ≡ ok (flags, first, handshake)))
      × ((bytes : List ℕ) × WroteSession
            (build_session_ack (first ∷ more) dest handshake out)
            out
            bytes
          × (parse_session_ack bytes ≡ ok handshake))
unfolding build_session_setup build_session_ack
parse-build_session flags first more dest handshake out hs hd some_dest small fits =
    let src = first ∷ more in
    let whole : (phase f : ℕ)
        → length (session_bytes phase f src dest handshake) ≡ 4 + body_len src dest handshake =
      λ phase f.
        unfold fsp_prefix in omega (arith, length-session_body f src dest handshake hs hd) in
    (
      (
        session_bytes phase_session_setup flags src dest handshake,
        build_session_lem phase_session_setup flags src dest handshake out refl some_dest hs hd
              small fits
            ∙ ap
                (λ n.
                  ok (n, after (session_bytes phase_session_setup flags src dest handshake) out))
                (sym (whole phase_session_setup flags)),
        parse_session_setup_full-bytes flags first more dest handshake hs hd small,
      ),
      (
        session_bytes phase_session_ack 0 src dest handshake,
        build_session_lem phase_session_ack 0 src dest handshake out refl some_dest hs hd small fits
            ∙ ap (λ n. ok (n, after (session_bytes phase_session_ack 0 src dest handshake) out))
                (sym (whole phase_session_ack 0)),
        parse_session_ack-bytes 0 first more dest handshake hs hd small,
      ),
    )
