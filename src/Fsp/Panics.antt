-- ===== src/Fsp/Panics.antt =====
-- The messages at which the parsers of sessions read out of range.
use microfips.Base.{
  ℕ, ◌+◌, ◌*◌, ◌%◌, ◌^◌, ◌≤◌, ◌<◌, List, [], ◌∷◌, ◌++◌, length, ◌==◌, false, ◌≡◌, refl, arith, ap,
  ◌∙◌,
}
use native.Mathlib.Decide.{dec_lt}
use microfips.Base.{length-append, le→ltb, append_assoc}
use microfips.Bytes.{le_bytes}
use microfips.Exec.{ok, panic, index, slice}
use microfips.Exec.Laws.{index_lem, slice-append}
use microfips.Fsp.{FspError, fsp_prefix, phase_session_setup, phase_session_ack}
use microfips.Fsp.Parse.{read_u16, parse_dest, parse_session_setup_full, parse_session_ack}
use microfips.Fsp.Written.{IsAddrs, counted, joined, length-counted}
use microfips.Fsp.Body.{open_body-prefix, read_u16-append}

index_out : (body : List ℕ) (i : ℕ) → length body ≤ i → index {E = FspError} body i ≡ panic
unfolding index
index_out body i out = ground arith

read_u16_out : (body : List ℕ) (pos : ℕ) → length body < pos + 2 → read_u16 body pos ≡ panic
unfolding read_u16
read_u16_out body pos out = elim (dec_lt pos (length body)) [
  | yes inside ↦ rw (index_lem body pos inside, index_out body (pos + 1) (omega arith))
  | no outside ↦ rw (index_out body pos (omega arith))
]

parse_dest_out : (body : List ℕ) (pos : ℕ) → length body < pos + 2 → parse_dest body pos ≡ panic
unfolding parse_dest
parse_dest_out body pos out = rw (read_u16_out body pos out)

module _ (flags : ℕ) (first : List ℕ) (more : List (List ℕ)) (tail : List ℕ)
    (hs : IsAddrs (first ∷ more)) (short : length tail < 2)
    (small : 3 + length (first ∷ more) * 16 + 2 < 2 ^ 16) where
  abbrev cut_body : List ℕ
  cut_body = flags ∷ (counted (first ∷ more) ++ tail)

  size : length cut_body ≡ 3 + length (first ∷ more) * 16 + length tail
  size =
      omega (arith, length-append (counted (first ∷ more)) tail, length-counted (first ∷ more) hs)

  read_src_count : read_u16 cut_body 1 ≡ ok (length (first ∷ more))
  read_src_count =
      let same : length (first ∷ more) % 2 ^ 16 ≡ length (first ∷ more) = omega arith in
      rw same (
        read_u16-append (flags ∷ []) (joined (first ∷ more) ++ tail) (length (first ∷ more)) 1 refl
          (omega arith))

  slice_first : slice {E = FspError} cut_body 3 19 ≡ ok first
  slice_first =
      let head = flags ∷ le_bytes 2 (length (first ∷ more) % 2 ^ 16) in
      ap (λ t. slice (head ++ t) 3 19) (append_assoc first (joined more) tail)
      ∙ slice-append head first (joined more ++ tail) 3 19 refl (omega (arith, hs.0))

  -- A setup or an acknowledgement with some source coordinates, all node addresses, whose body a `u16`
  -- can count and ends with those coordinates, or one byte behind them, makes the parser panic: the
  -- number of destination coordinates is read with no test that it is there.
  pub parse_session_panics :
      (parse_session_setup_full (fsp_prefix phase_session_setup 0 (length cut_body) ++ cut_body)
        ≡ panic)
      × (parse_session_ack (fsp_prefix phase_session_ack 0 (length cut_body) ++ cut_body) ≡ panic)
  unfolding parse_session_setup_full parse_session_ack
  parse_session_panics =
      let n = length (first ∷ more) in
      let some : (n == 0) ≡ false = ground arith in
      let long : (length cut_body == 0) ≡ false = ground (arith, size) in
      let cut = parse_dest_out cut_body (1 + (2 + n * 16)) (omega (arith, size)) in
      (
        rw (
          open_body-prefix phase_session_setup cut_body (omega arith) (omega (arith, size)),
          le→ltb (length cut_body) 19 (omega (arith, size)),
          index_lem cut_body 0 (omega (arith, size)),
          read_src_count,
          some,
          slice_first,
          le→ltb (length cut_body) (1 + (2 + n * 16)) (omega (arith, size)),
          cut,
        ),
        rw (
          open_body-prefix phase_session_ack cut_body (omega arith) (omega (arith, size)),
          long,
          index_lem cut_body 0 (omega (arith, size)),
          read_src_count,
          le→ltb (length cut_body) (1 + (2 + n * 16)) (omega (arith, size)),
          cut,
        ),
      )
