-- ===== src/Fsp/Written.antt =====
-- What the builders of session messages write.
use microfips.Base.{ℕ, suc, ◌+◌, ◌*◌, ◌%◌, ◌^◌, ◌≤◌, ◌<◌, List, [], ◌∷◌, ◌++◌, length}
use microfips.Base.{
  ◌≡◌, refl, arith, ap, ◌∙◌, append_assoc, append-nil, length-append, le→ltb, false,
}
use microfips.Bytes.{le_bytes}
use microfips.Exec.{ok}
use microfips.Exec.Write.{after, next, next_byte}
use microfips.Fsp.{fsp_prefix}
use microfips.Fsp.Build.{
  is_empty, write_coords, write_counted, write_handshake, build_session, body_len,
}

-- Every coordinate is a node address.
abbrev pub IsAddrs : List (List ℕ) → Type 0
IsAddrs [] = Unit
IsAddrs (coord ∷ coords) = (length coord ≡ 16) × IsAddrs coords

abbrev pub joined : List (List ℕ) → List ℕ
joined [] = []
joined (coord ∷ coords) = coord ++ joined coords

pub length-joined :
    (coords : List (List ℕ)) → IsAddrs coords → length (joined coords) ≡ length coords * 16
length-joined [] h = omega arith
length-joined (coord ∷ coords) (size, h) =
    omega (arith, size, length-append coord (joined coords), length-joined coords h)

write_coords_lem :
    (coords : List (List ℕ)) (written out : List ℕ) (pos : ℕ)
    → IsAddrs coords
    → pos ≡ length written
    → pos + length coords * 16 ≤ length out
    → write_coords coords pos (after written out)
      ≡ ok (pos + length coords * 16, after (written ++ joined coords) out)
unfolding write_coords
write_coords_lem [] written out pos h hp fits =
    let same : pos + 0 * 16 ≡ pos = omega arith in rw (append-nil written, same)
write_coords_lem (coord ∷ coords) written out pos (size, h) hp fits =
    let more : pos + 16 + length coords * 16 ≡ pos + suc (length coords) * 16 = omega arith in
    rw (
      next written coord out pos (pos + 16) hp (omega (arith, size)) (omega arith),
      write_coords_lem coords (written ++ coord) out (pos + 16) h
          (omega (arith, size, length-append written coord)) (omega arith),
      more,
      append_assoc written coord (joined coords),
    )

-- A number of coordinates and the coordinates.
abbrev pub counted : List (List ℕ) → List ℕ
counted coords = le_bytes 2 (length coords % 2 ^ 16) ++ joined coords

write_counted_lem :
    (coords : List (List ℕ)) (written out : List ℕ) (pos : ℕ)
    → IsAddrs coords
    → pos ≡ length written
    → pos + 2 + length coords * 16 ≤ length out
    → write_counted coords pos (after written out)
      ≡ ok (pos + 2 + length coords * 16, after (written ++ counted coords) out)
unfolding write_counted
write_counted_lem coords written out pos h hp fits =
    let count = le_bytes 2 (length coords % 2 ^ 16) in
    rw (
      next written count out pos (pos + 2) hp refl (omega arith),
      write_coords_lem coords (written ++ count) out (pos + 2) h
          (omega (arith, length-append written count)) fits,
      append_assoc written count (joined coords),
    )

-- The length of a handshake and the handshake.
abbrev pub sized : List ℕ → List ℕ
sized handshake = le_bytes 2 (length handshake % 2 ^ 16) ++ handshake

pub write_handshake_lem :
    (handshake written out : List ℕ) (pos : ℕ)
    → pos ≡ length written
    → pos + 2 + length handshake ≤ length out
    → write_handshake handshake pos (after written out)
      ≡ ok (pos + 2 + length handshake, after (written ++ sized handshake) out)
unfolding write_handshake
write_handshake_lem handshake written out pos hp fits =
    let size = le_bytes 2 (length handshake % 2 ^ 16) in
    rw (
      next written size out pos (pos + 2) hp refl (omega arith),
      next (written ++ size) handshake out (pos + 2) (pos + 2 + length handshake)
          (omega (arith, length-append written size)) refl fits,
      append_assoc written size handshake,
    )

-- The bytes of a setup or an acknowledgement.
abbrev pub session_body : ℕ → List (List ℕ) → List (List ℕ) → List ℕ → List ℕ
session_body flags src dest handshake = flags ∷ (counted src ++ (counted dest ++ sized handshake))

abbrev pub session_bytes : ℕ → ℕ → List (List ℕ) → List (List ℕ) → List ℕ → List ℕ
session_bytes phase flags src dest handshake =
    fsp_prefix phase 0 (body_len src dest handshake % 2 ^ 16)
    ++ session_body flags src dest handshake

pub length-counted :
    (coords : List (List ℕ)) → IsAddrs coords → length (counted coords) ≡ 2 + length coords * 16
length-counted coords h = omega (arith, length-joined coords h)

pub length-session_body :
    (flags : ℕ) (src dest : List (List ℕ)) (handshake : List ℕ)
    → IsAddrs src
    → IsAddrs dest
    → length (session_body flags src dest handshake) ≡ body_len src dest handshake
length-session_body flags src dest handshake hs hd = omega (
  arith,
  length-append (counted src) (counted dest ++ sized handshake),
  length-append (counted dest) (sized handshake),
  length-counted src hs,
  length-counted dest hd,
)

pub build_session_lem :
    (phase flags : ℕ) (src dest : List (List ℕ)) (handshake out : List ℕ)
    → is_empty src ≡ false
    → is_empty dest ≡ false
    → IsAddrs src
    → IsAddrs dest
    → body_len src dest handshake < 2 ^ 16
    → 4 + body_len src dest handshake ≤ length out
    → build_session phase flags src dest handshake out
      ≡ ok (
        4 + body_len src dest handshake,
        after (session_bytes phase flags src dest handshake) out,
      )
unfolding build_session fsp_prefix
build_session_lem phase flags src dest handshake out some_src some_dest hs hd small fits =
    let size = body_len src dest handshake in
    let prefix = fsp_prefix phase 0 (size % 2 ^ 16) in
    let head = prefix ++ (flags ∷ []) in
    let src_end = 5 + 2 + length src * 16 in
    let dest_end = src_end + 2 + length dest * 16 in
    let src_size = length-append head (counted src) in
    let total : dest_end + 2 + length handshake ≡ 4 + size = omega arith in
    rw
      (
        some_src,
        some_dest,
        le→ltb (length out) (4 + size) fits,
        le→ltb 0xffff size (omega arith),
        next [] prefix out 0 4 refl refl (omega arith),
        next_byte prefix out 4 flags refl (omega arith),
        write_counted_lem src head out 5 hs refl (omega arith),
        write_counted_lem dest (head ++ counted src) out src_end hd
            (omega (arith, src_size, length-counted src hs)) (omega arith),
        write_handshake_lem handshake ((head ++ counted src) ++ counted dest) out dest_end
            (omega (
              arith,
              src_size,
              length-append (head ++ counted src) (counted dest),
              length-counted src hs,
              length-counted dest hd,
            ))
            (omega arith),
        total,
      )
      (ap (λ t. ok (4 + size, after t out))
        (append_assoc (head ++ counted src) (counted dest) (sized handshake)
          ∙ append_assoc head (counted src) (counted dest ++ sized handshake)))
