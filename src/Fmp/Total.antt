-- ===== src/Fmp/Total.antt =====
-- The parsers look at no byte that is not there.
use microfips.Base.{ℕ, List, arith, length, ltb, ltb→le, Bool-cases}
use microfips.Base.{get_or, inl, inr, ◌==◌, ◌!=◌, ◌/◌, bit_and, [], ◌∷◌}
use microfips.Exec.{IsNotPanic}
use microfips.Exec.Laws.{index_lem, slice_from_lem, read_le_lem}
use microfips.Fmp.{Wire, fmp_version, parse_prefix, FmpMessage, msg2, msg3, phase_msg1}
use microfips.Fmp.{phase_msg2, phase_msg3, phase_established}
use microfips.Fmp.Prefix.{parse_prefix-cons}
use microfips.Fmp.Parse.{parse_message, parse_phase, parse_msg1, parse_indexed, parse_established}
use microfips.Fmp.Parse.{strip_inner_header}
use microfips.Exec.Post.{if-IsNotPanic}

parse_msg1-IsNotPanic : (payload : List ℕ) → IsNotPanic (parse_msg1 payload)
unfolding parse_msg1
parse_msg1-IsNotPanic payload = elim (Bool-cases (ltb (length payload) 4)) [
  | inl short ↦ rw short tt
  | inr long ↦
      let fits = ltb→le (length payload) 4 long in
      rw (long, read_le_lem payload 0 4 (omega arith) fits, slice_from_lem payload 4 fits) tt
]

parse_indexed-IsNotPanic :
    (message : ℕ → ℕ → List ℕ → FmpMessage) (payload : List ℕ)
    → IsNotPanic (parse_indexed message payload)
unfolding parse_indexed
parse_indexed-IsNotPanic message payload = elim (Bool-cases (ltb (length payload) 8)) [
  | inl short ↦ rw short tt
  | inr long ↦
      let fits = ltb→le (length payload) 8 long in
      rw
        (
          long,
          read_le_lem payload 0 4 (omega arith) (omega arith),
          read_le_lem payload 4 8 (omega arith) fits,
          slice_from_lem payload 8 fits,
        )
        tt
]

parse_established-IsNotPanic : (payload : List ℕ) → IsNotPanic (parse_established payload)
unfolding parse_established
parse_established-IsNotPanic payload = elim (Bool-cases (ltb (length payload) 12)) [
  | inl short ↦ rw short tt
  | inr long ↦
      let fits = ltb→le (length payload) 12 long in
      rw
        (
          long,
          read_le_lem payload 0 4 (omega arith) (omega arith),
          read_le_lem payload 4 12 (omega arith) fits,
          slice_from_lem payload 12 fits,
        )
        tt
]

parse_phase-IsNotPanic : (phase : ℕ) (payload : List ℕ) → IsNotPanic (parse_phase phase payload)
unfolding parse_phase
parse_phase-IsNotPanic phase payload =
    if-IsNotPanic (phase == phase_msg1) _ _ (parse_msg1-IsNotPanic payload) (
      if-IsNotPanic (phase == phase_msg2) _ _ (parse_indexed-IsNotPanic msg2 payload) (
        if-IsNotPanic (phase == phase_msg3) _ _ (parse_indexed-IsNotPanic msg3 payload) (
          if-IsNotPanic (phase == phase_established) _ _ (parse_established-IsNotPanic payload)
            tt)))

pub parse_prefix-IsNotPanic : (wire : Wire) (buf : List ℕ) → IsNotPanic (parse_prefix wire buf)
unfolding parse_prefix
parse_prefix-IsNotPanic wire buf = elim (Bool-cases (ltb (length buf) 4)) [
  | inl short ↦ rw short tt
  | inr long ↦
      let fits = ltb→le (length buf) 4 long in
      rw
        (
          long,
          index_lem buf 0 (omega arith),
          index_lem buf 1 (omega arith),
          index_lem buf 2 (omega arith),
          index_lem buf 3 (omega arith),
        )
        (if-IsNotPanic (get_or buf 0 0 / 16 != fmp_version wire) _ _ tt tt)
]

-- No frame, of any length and content, makes `parse_message` read out of range.
pub parse_message-IsNotPanic : (wire : Wire) (buf : List ℕ) → IsNotPanic (parse_message wire buf)
unfolding parse_message
parse_message-IsNotPanic wire [] = unfold parse_prefix in tt
parse_message-IsNotPanic wire (b0 ∷ []) = unfold parse_prefix in tt
parse_message-IsNotPanic wire (b0 ∷ b1 ∷ []) = unfold parse_prefix in tt
parse_message-IsNotPanic wire (b0 ∷ b1 ∷ b2 ∷ []) = unfold parse_prefix in tt
parse_message-IsNotPanic wire (b0 ∷ b1 ∷ b2 ∷ b3 ∷ rest) =
    rw (parse_prefix-cons wire b0 b1 b2 b3 rest) (elim (Bool-cases (b0 / 16 != fmp_version wire)) [
      | inl other ↦ rw other tt
      | inr same ↦
          rw (same, slice_from_lem (b0 ∷ b1 ∷ b2 ∷ b3 ∷ rest) 4 (omega arith))
            (parse_phase-IsNotPanic (bit_and b0 0x0f) rest)
    ])

pub strip_inner_header-IsNotPanic : (buf : List ℕ) → IsNotPanic (strip_inner_header buf)
unfolding strip_inner_header
strip_inner_header-IsNotPanic buf = elim (Bool-cases (ltb (length buf) 5)) [
  | inl short ↦ rw short tt
  | inr long ↦
      let fits = ltb→le (length buf) 5 long in
      rw
        (
          long,
          index_lem buf 0 (omega arith),
          index_lem buf 1 (omega arith),
          index_lem buf 2 (omega arith),
          index_lem buf 3 (omega arith),
          slice_from_lem buf 4 (omega arith),
        )
        tt
]
