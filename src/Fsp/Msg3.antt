-- ===== src/Fsp/Msg3.antt =====
-- The third message of a session: what is built is parsed, and no message makes the parser panic.
use microfips.Base.{
  ℕ, ◌+◌, ◌%◌, ◌^◌, ◌≤◌, ◌<◌, List, [], ◌∷◌, ◌++◌, length, ◌≡◌, refl, arith, ap, ◌∙◌, sym,
}
use microfips.Base.{le→ltb, append-nil}
use microfips.Bytes.{le_bytes}
use microfips.Exec.{ok, slice}
use microfips.Exec.Laws.{index_lem, slice-append}
use microfips.Fsp.{FspError, fsp_prefix, phase_session_msg3}
use microfips.Fsp.Build.{build_session_msg3}
use microfips.Fsp.Parse.{read_u16, open_body, parse_session_msg3}
use microfips.Fsp.Written.{sized, write_handshake_lem}
use microfips.Exec.Write.{next, next_byte}
use microfips.Fsp.Body.{open_body-prefix, read_u16-append}
use microfips.Fsp.RoundTrip.{WroteSession}

abbrev pub msg3_body : List ℕ → List ℕ
msg3_body handshake = 0 ∷ sized handshake

parse_session_msg3-bytes :
    (handshake : List ℕ)
    → 3 + length handshake < 2 ^ 16
    → parse_session_msg3
        (fsp_prefix phase_session_msg3 0 (3 + length handshake) ++ msg3_body handshake)
      ≡ ok handshake
unfolding parse_session_msg3
parse_session_msg3-bytes handshake small =
    let body = msg3_body handshake in
    let whole : length body ≡ 3 + length handshake = omega arith in
    let same : length handshake % 2 ^ 16 ≡ length handshake = omega arith in
    let opened : open_body phase_session_msg3
          (fsp_prefix phase_session_msg3 0 (3 + length handshake) ++ body)
        ≡ ok body =
      ap (λ n. open_body phase_session_msg3 (fsp_prefix phase_session_msg3 0 n ++ body)) (sym whole)
      ∙ open_body-prefix phase_session_msg3 body (omega arith) (omega arith) in
    let count : read_u16 body 1 ≡ ok (length handshake) =
      rw same (read_u16-append (0 ∷ []) handshake (length handshake) 1 refl (omega arith)) in
    let cut : slice {E = FspError} body 3 (3 + length handshake) ≡ ok handshake =
      ap (λ t. slice (0 ∷ (le_bytes 2 (length handshake % 2 ^ 16) ++ t)) 3 (3 + length handshake))
        (sym (append-nil handshake))
      ∙ slice-append (0 ∷ le_bytes 2 (length handshake % 2 ^ 16)) handshake [] 3
          (3 + length handshake) refl refl in
    rw (
      opened,
      le→ltb (length body) 3 (omega arith),
      index_lem body 0 (omega arith),
      count,
      le→ltb (length body) (3 + length handshake) (omega arith),
      cut,
    )

-- A third message whose body a `u16` can count, in a buffer that holds it, is written whole at the
-- front of the buffer, with the rest left as it was, and its handshake is parsed.
pub parse-build_session_msg3 :
    (handshake out : List ℕ)
    → 3 + length handshake < 2 ^ 16
    → 7 + length handshake ≤ length out
    → (bytes : List ℕ) × WroteSession (build_session_msg3 handshake out) out bytes
      × (parse_session_msg3 bytes ≡ ok handshake)
unfolding build_session_msg3 fsp_prefix
parse-build_session_msg3 handshake out small fits =
    let n = 3 + length handshake in
    let prefix = fsp_prefix phase_session_msg3 0 n in
    let sum : 1 + 2 + length handshake ≡ n = omega arith in
    let same : n % 2 ^ 16 ≡ n = omega arith in
    let total : 5 + 2 + length handshake ≡ length (prefix ++ msg3_body handshake) = omega arith in
    (
      prefix ++ msg3_body handshake,
      rw (
        sum,
        le→ltb (length out) (4 + n) (omega arith),
        same,
        next [] prefix out 0 4 refl refl (omega arith),
        next_byte prefix out 4 0 refl (omega arith),
        write_handshake_lem handshake (prefix ++ (0 ∷ [])) out 5 refl (omega arith),
        total,
      ),
      parse_session_msg3-bytes handshake small,
    )
