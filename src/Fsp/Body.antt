-- ===== src/Fsp/Body.antt =====
-- The parts of a session message's body, as the parsers read them.
use microfips.Base.{
  ℕ, ◌+◌, ◌*◌, ◌%◌, ◌/◌, ◌^◌, ◌<◌, ◌-◌, List, [], ◌∷◌, ◌++◌, length, bit_and, ◌!=◌,
}
use microfips.Base.{
  ◌≡◌, refl, arith, ap, sym, ◌∙◌, append_assoc, append-nil, take_all, length-append, le→ltb, false,
}
use microfips.Bits.{bit_or-fields, bit_and_mask}
use microfips.Bytes.{le_bytes, from_le-le_bytes}
use microfips.Exec.{ok, slice}
use microfips.Exec.Laws.{index_lem, slice_lem, slice-append, slice_from-append, get_or-append_past}
use microfips.Fsp.{FspError, fsp_prefix, fsp_prefix_byte}
use microfips.Fsp.Parse.{read_u16, open_body, parse_dest}
use microfips.Fsp.Written.{IsAddrs, joined, counted, sized, length-counted}

-- A `u16` that was written behind `front` is read there.
pub read_u16-append :
    (front rest : List ℕ) (n pos : ℕ)
    → pos ≡ length front
    → n < 2 ^ 16
    → read_u16 (front ++ (le_bytes 2 n ++ rest)) pos ≡ ok n
unfolding read_u16
read_u16-append front rest n pos hp small =
    let body = front ++ (le_bytes 2 n ++ rest) in
    let whole = length-append front (le_bytes 2 n ++ rest) in
    let here : pos ≡ length front + 0 = omega (arith, hp) in
    let there : pos + 1 ≡ length front + 1 = omega (arith, hp) in
    rw (index_lem body pos (omega (arith, whole)), index_lem body (pos + 1) (omega (arith, whole)))
      (rw
        (
          there,
          get_or-append_past front (le_bytes 2 n ++ rest) 1 0,
          here,
          get_or-append_past front (le_bytes 2 n ++ rest) 0 0,
        )
        (ap ok (from_le-le_bytes 2 n small)))

fsp_prefix_byte_lem : (phase : ℕ) → phase < 16 → fsp_prefix_byte phase ≡ phase
unfolding fsp_prefix_byte
fsp_prefix_byte_lem phase small =
    let low : bit_and phase 0x0f ≡ phase = omega (arith, bit_and_mask 4 phase) in
    rw low (bit_or-fields 4 0 phase small ∙ omega arith)

slice_all : (body : List ℕ) → slice {E = FspError} body 0 (length body) ≡ ok body
slice_all body =
    let width : length body - 0 ≡ length body = omega arith in
    slice_lem body 0 (length body) (omega arith) (omega arith)
    ∙ rw (width, take_all (length body) body (omega arith))

-- Behind a prefix with the length of the body, the body is found.
pub open_body-prefix :
    (phase : ℕ) (body : List ℕ)
    → phase < 16
    → length body < 2 ^ 16
    → open_body phase (fsp_prefix phase 0 (length body) ++ body) ≡ ok body
unfolding open_body fsp_prefix
open_body-prefix phase body hp hl =
    let buf = fsp_prefix phase 0 (length body) ++ body in
    let byte = fsp_prefix_byte_lem phase hp in
    let same : (phase != phase) ≡ false = ground arith in
    let version : phase / 16 ≡ 0 = omega arith in
    let low : bit_and phase 0x0f ≡ phase = omega (arith, bit_and_mask 4 phase) in
    rw
      (
        le→ltb (length buf) 4 (omega arith),
        index_lem buf 0 (omega arith),
        byte,
        version,
        low,
        read_u16-append (phase ∷ 0 ∷ []) body (length body) 2 refl hl,
        slice_from-append (phase ∷ 0 ∷ le_bytes 2 (length body)) body 4 refl,
        le→ltb (length body) (length body) (omega arith),
      )
      (rw (same, slice_all body))

module _ (front : List ℕ) (dest : List (List ℕ)) (handshake : List ℕ) (hd : IsAddrs dest)
    (few : length dest < 2 ^ 16) (short : length handshake < 2 ^ 16) where
  abbrev body : List ℕ
  body = front ++ (counted dest ++ sized handshake)

  abbrev pos : ℕ
  pos = length front + (2 + length dest * 16)

  length-body : length body ≡ pos + 2 + length handshake
  length-body = omega (
    arith,
    length-append front (counted dest ++ sized handshake),
    length-append (counted dest) (sized handshake),
    length-counted dest hd,
  )

  read_count : read_u16 body (length front) ≡ ok (length dest)
  read_count =
      let same : length dest % 2 ^ 16 ≡ length dest = omega arith in
      rw same (
        read_u16-append front (joined dest ++ sized handshake) (length dest) (length front) refl
          few)

  -- The body, split behind the coordinates.
  front_counted :
      front ++ (counted dest ++ sized handshake) ≡ (front ++ counted dest) ++ sized handshake
  front_counted = sym (append_assoc front (counted dest) (sized handshake))

  length-front_counted : pos ≡ length (front ++ counted dest)
  length-front_counted = omega (arith, length-append front (counted dest), length-counted dest hd)

  read_size : read_u16 body pos ≡ ok (length handshake)
  read_size =
      let same : length handshake % 2 ^ 16 ≡ length handshake = omega arith in
      ap (λ t. read_u16 t pos) front_counted
      ∙ rw same (
          read_u16-append (front ++ counted dest) handshake (length handshake) pos
            length-front_counted short)

  cut_handshake : slice {E = FspError} body (pos + 2) (pos + 2 + length handshake) ≡ ok handshake
  cut_handshake =
      let size = le_bytes 2 (length handshake % 2 ^ 16) in
      let whole = length-append (front ++ counted dest) size in
      let split : body ≡ ((front ++ counted dest) ++ size) ++ (handshake ++ []) =
        front_counted
        ∙ sym (append_assoc (front ++ counted dest) size handshake)
        ∙ ap (λ t. ((front ++ counted dest) ++ size) ++ t) (sym (append-nil handshake)) in
      ap (λ t. slice t (pos + 2) (pos + 2 + length handshake)) split
      ∙ slice-append ((front ++ counted dest) ++ size) handshake [] (pos + 2)
          (pos + 2 + length handshake) (omega (arith, whole, length-front_counted))
          (omega (arith, whole, length-front_counted))

  pub parse_dest-sized : parse_dest body (length front) ≡ ok handshake
  unfolding parse_dest
  parse_dest-sized = rw (
    read_count,
    le→ltb (length body) pos (omega (arith, length-body)),
    le→ltb (length body) (pos + 2) (omega (arith, length-body)),
    read_size,
    le→ltb (length body) (pos + 2 + length handshake) (omega (arith, length-body)),
    cut_handshake,
  )
