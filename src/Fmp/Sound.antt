-- ===== src/Fmp/Sound.antt =====
-- A message that was parsed is all that stands behind the prefix.
use microfips.Base.{ℕ, ◌+◌, ◌*◌, ◌/◌, ◌≤◌, List, [], ◌∷◌, ◌++◌, ◌≡◌, refl, arith, ap}
use microfips.Base.{
  sym, subst, ◌∙◌, length, ltb, ltb→le, Bool-cases, inl, inr, take, drop, get_or, ◌==◌,
}
use microfips.Base.{◌!=◌, take-append-drop, length-drop, length-take, bit_and, ==_iff}
use microfips.Bits.{bit_and_mask}
use microfips.Bytes.{take-IsBytes, drop-IsBytes, le_bytes, from_le, IsBytes, le_bytes-from_le}
use microfips.Exec.{Exec, ok, Absent}
use microfips.Exec.Laws.{slice_from_lem, read_le_lem, drop-drop}
use microfips.Fmp.{Wire, fmp_version, parse_prefix, FmpMessage, msg1, msg2, msg3, established}
use microfips.Fmp.{phase_msg1, phase_msg2, phase_msg3, phase_established}
use microfips.Fmp.Prefix.{parse_prefix-cons}
use microfips.Fmp.Parse.{parse_message, parse_phase, parse_msg1, parse_indexed, parse_established}

-- The bytes of a message behind the prefix, and its phase.
abbrev pub body_bytes : FmpMessage → List ℕ
body_bytes (msg1 s p) = le_bytes 4 s ++ p
body_bytes (msg2 s r p) = le_bytes 4 s ++ (le_bytes 4 r ++ p)
body_bytes (msg3 s r p) = le_bytes 4 s ++ (le_bytes 4 r ++ p)
body_bytes (established r c e) = le_bytes 4 r ++ (le_bytes 8 c ++ e)

abbrev pub phase_of : FmpMessage → ℕ
phase_of (msg1 s p) = phase_msg1
phase_of (msg2 s r p) = phase_msg2
phase_of (msg3 s r p) = phase_msg3
phase_of (established r c e) = phase_established

-- A field of `w` bytes that was read is written back as it stood.
field_bytes :
    (w : ℕ) (bs : List ℕ)
    → IsBytes bs
    → w ≤ length bs
    → le_bytes w (from_le (take w bs)) ++ drop w bs ≡ bs
field_bytes w bs h fits =
    let size : length (take w bs) ≡ w = omega (arith, length-take w bs) in
    ap (λ t. t ++ drop w bs)
      (ap (λ t. le_bytes t (from_le (take w bs))) (sym size)
        ∙ le_bytes-from_le (take w bs) (take-IsBytes w bs h))
    ∙ take-append-drop w bs

two_fields :
    (w v : ℕ) (bs : List ℕ)
    → IsBytes bs
    → w + v ≤ length bs
    → le_bytes w (from_le (take w bs))
        ++ (le_bytes v (from_le (take v (drop w bs))) ++ drop (w + v) bs)
      ≡ bs
two_fields w v bs h fits =
    ap (λ t. le_bytes w (from_le (take w bs)) ++ t)
      (rw (← drop-drop v w bs)
        (field_bytes v (drop w bs) (drop-IsBytes w bs h) (omega (arith, length-drop w bs))))
    ∙ field_bytes w bs h (omega arith)

ok-injective : {A : Type 0} {x y : A} → ◌≡◌ {A = Exec Absent A} (ok x) (ok y) → x ≡ y
ok-injective e = cc

-- What a parse of a part gives: a refusal, or a message whose bytes are that part.
abbrev Reads : FmpMessage → ℕ → List ℕ → Type 0
Reads m phase payload = (body_bytes m ≡ payload) × (phase_of m ≡ phase)

parse_msg1_sound :
    (payload : List ℕ) {m : FmpMessage}
    → IsBytes payload
    → parse_msg1 payload ≡ ok m
    → Reads m phase_msg1 payload
unfolding parse_msg1
parse_msg1_sound payload {m} h e = elim (Bool-cases (ltb (length payload) 4)) [
  | inl short ↦ cc (rw short at e)
  | inr long ↦
      let fits = ltb→le (length payload) 4 long in
      let found = ok-injective (
        rw (long, read_le_lem payload 0 4 (omega arith) fits, slice_from_lem payload 4 fits) at
          e) in
      subst (λ t. Reads t phase_msg1 payload) found (field_bytes 4 payload h fits, refl)
]

parse_indexed_sound :
    (message : ℕ → ℕ → List ℕ → FmpMessage) (phase : ℕ) (payload : List ℕ) {m : FmpMessage}
    → ((s r : ℕ) (p : List ℕ) → Reads (message s r p) phase (le_bytes 4 s ++ (le_bytes 4 r ++ p)))
    → IsBytes payload
    → parse_indexed message payload ≡ ok m
    → Reads m phase payload
unfolding parse_indexed
parse_indexed_sound message phase payload {m} shape h e =
    elim (Bool-cases (ltb (length payload) 8)) [
      | inl short ↦ cc (rw short at e)
      | inr long ↦
          let fits = ltb→le (length payload) 8 long in
          let s = from_le (take 4 payload) in
          let r = from_le (take 4 (drop 4 payload)) in
          let found = ok-injective (
            rw
              (
                long,
                read_le_lem payload 0 4 (omega arith) (omega arith),
                read_le_lem payload 4 8 (omega arith) fits,
                slice_from_lem payload 8 fits,
              )
              at e) in
          subst (λ t. Reads t phase payload) found
            (
              (shape s r (drop 8 payload)).0 ∙ two_fields 4 4 payload h fits,
              (shape s r (drop 8 payload)).1,
            )
    ]

parse_established_sound :
    (payload : List ℕ) {m : FmpMessage}
    → IsBytes payload
    → parse_established payload ≡ ok m
    → Reads m phase_established payload
unfolding parse_established
parse_established_sound payload {m} h e = elim (Bool-cases (ltb (length payload) 12)) [
  | inl short ↦ cc (rw short at e)
  | inr long ↦
      let fits = ltb→le (length payload) 12 long in
      let found = ok-injective (
        rw
          (
            long,
            read_le_lem payload 0 4 (omega arith) (omega arith),
            read_le_lem payload 4 12 (omega arith) fits,
            slice_from_lem payload 12 fits,
          )
          at e) in
      subst (λ t. Reads t phase_established payload) found (two_fields 4 8 payload h fits, refl)
]

parse_phase_sound :
    (phase : ℕ) (payload : List ℕ) {m : FmpMessage}
    → IsBytes payload
    → parse_phase phase payload ≡ ok m
    → Reads m phase payload
unfolding parse_phase
parse_phase_sound phase payload {m} h e = elim (Bool-cases (phase == phase_msg1)) [
  | inl one ↦ rw ((==_iff phase 1).0 one) (parse_msg1_sound payload h (rw one at e))
  | inr not_one ↦ elim (Bool-cases (phase == phase_msg2)) [
    | inl two ↦ rw ((==_iff phase 2).0 two) (
        parse_indexed_sound msg2 phase_msg2 payload (λ s r p. (refl, refl)) h
          (rw (not_one, two) at e))
    | inr not_two ↦ elim (Bool-cases (phase == phase_msg3)) [
      | inl three ↦ rw ((==_iff phase 3).0 three) (
          parse_indexed_sound msg3 phase_msg3 payload (λ s r p. (refl, refl)) h
            (rw (not_one, not_two, three) at e))
      | inr not_three ↦ elim (Bool-cases (phase == phase_established)) [
        | inl zeroth ↦
            rw ((==_iff phase 0).0 zeroth)
              (parse_established_sound payload h (rw (not_one, not_two, not_three, zeroth) at e))
        | inr other ↦ cc (rw (not_one, not_two, not_three, other) at e)
      ]
    ]
  ]
]

-- A frame of bytes that `parse_message` accepts begins with this wire's version and the phase of
-- the message, and is, behind its four bytes of prefix, the fields of the message in order.
pub parse_message_sound :
    (wire : Wire) (buf : List ℕ) {m : FmpMessage}
    → IsBytes buf
    → parse_message wire buf ≡ ok m
    → (get_or buf 0 0 ≡ fmp_version wire * 16 + phase_of m) × (drop 4 buf ≡ body_bytes m)
unfolding parse_message
parse_message_sound wire [] h e = unfold parse_prefix in cc e
parse_message_sound wire (b0 ∷ []) h e = unfold parse_prefix in cc e
parse_message_sound wire (b0 ∷ b1 ∷ []) h e = unfold parse_prefix in cc e
parse_message_sound wire (b0 ∷ b1 ∷ b2 ∷ []) h e = unfold parse_prefix in cc e
parse_message_sound wire (b0 ∷ b1 ∷ b2 ∷ b3 ∷ rest) h e =
    elim (Bool-cases (b0 / 16 != fmp_version wire)) [
      | inl other ↦ cc (rw (parse_prefix-cons wire b0 b1 b2 b3 rest, other) at e)
      | inr same ↦
          let version : b0 / 16 ≡ fmp_version wire = ground arith in
          let read = parse_phase_sound (bit_and b0 0x0f) rest h.1.1.1.1 (
            rw
              (
                parse_prefix-cons wire b0 b1 b2 b3 rest,
                same,
                slice_from_lem (b0 ∷ b1 ∷ b2 ∷ b3 ∷ rest) 4 (omega arith),
              )
              at e) in
          (omega (arith, version, bit_and_mask 4 b0, read.1), sym read.0)
    ]
