-- ===== src/Negotiation/Tlv.antt =====
-- `find_tlv` against a list of entries, and on any payload.
use microfips.Base.{
  ℕ, zero, suc, ◌+◌, ◌-◌, ◌^◌, ◌≤◌, ◌<◌, List, [], ◌∷◌, ◌++◌, length, take, drop, ◌≡◌, refl, arith,
}
use microfips.Base.{
  sym, ◌∙◌, Option, none, some, Bool, true, false, if◌then◌else◌, ltb, ◌==◌, Bool-cases, inl, inr,
}
use microfips.Base.{
  ltb→lt, le→ltb, lt→ltb, ltb→le, length-append, length-drop, take-append_self, drop-append_self,
}
use microfips.Bytes.{le_bytes, from_le, from_le-le_bytes}
use microfips.Exec.{Exec, ok, err, IsNotPanic}
use microfips.Exec.Post.{if-IsNotPanic}
use microfips.Exec.Laws.{index_lem, slice_lem, slice_from_lem, drop-append_past, slice_from-append}
use microfips.Negotiation.{scan, find_tlv, NegotiationError, truncated_tlv}

-- A field number and its value.
abbrev pub Entry : Type 0
Entry = ℕ × List ℕ

abbrev pub entry_bytes : List Entry → List ℕ
entry_bytes [] = []
entry_bytes ((num, value) ∷ entries) =
    le_bytes 2 num ++ (le_bytes 2 (length value) ++ (value ++ entry_bytes entries))

-- The value of the first entry of that number.
abbrev pub lookup : ℕ → List Entry → Option (List ℕ)
lookup field_num [] = none
lookup field_num ((num, value) ∷ entries) =
    if num == field_num then some value else lookup field_num entries

-- Numbers and sizes are `u16`.
abbrev pub IsEntries : List Entry → Type 0
IsEntries [] = Unit
IsEntries ((num, value) ∷ entries) = (num < 2 ^ 16) × (length value < 2 ^ 16) × IsEntries entries

-- A round of the loop whose value is there.
scan_step :
    (fuel field_num n0 n1 l0 l1 : ℕ) (tail : List ℕ)
    → from_le (l0 ∷ l1 ∷ []) ≤ length tail
    → scan (suc fuel) field_num (n0 ∷ n1 ∷ l0 ∷ l1 ∷ tail) ≡ (
        if from_le (n0 ∷ n1 ∷ []) == field_num
        then ok (some (take (from_le (l0 ∷ l1 ∷ [])) tail))
        else scan fuel field_num (drop (from_le (l0 ∷ l1 ∷ [])) tail))
unfolding scan
scan_step fuel field_num n0 n1 l0 l1 tail fits =
    let rest = n0 ∷ n1 ∷ l0 ∷ l1 ∷ tail in
    let len = from_le (l0 ∷ l1 ∷ []) in
    let width : 4 + len - 4 ≡ len = omega arith in
    let past : drop (4 + len) rest ≡ drop len tail =
      drop-append_past (n0 ∷ n1 ∷ l0 ∷ l1 ∷ []) tail len in
    rw (
      le→ltb (length rest) 4 (omega arith),
      index_lem rest 0 (omega arith),
      index_lem rest 1 (omega arith),
      index_lem rest 2 (omega arith),
      index_lem rest 3 (omega arith),
      le→ltb (length rest) (4 + len) (omega arith),
      slice_lem rest 4 (4 + len) (omega arith) (omega arith),
      slice_from_lem rest (4 + len) (omega arith),
      width,
      past,
    )

-- The other rounds: the value, or the four bytes before it, are cut off.
scan_cut :
    (fuel field_num n0 n1 l0 l1 : ℕ) (tail : List ℕ)
    → length tail < from_le (l0 ∷ l1 ∷ [])
    → scan (suc fuel) field_num (n0 ∷ n1 ∷ l0 ∷ l1 ∷ tail) ≡ err truncated_tlv
unfolding scan
scan_cut fuel field_num n0 n1 l0 l1 tail short =
    let rest = n0 ∷ n1 ∷ l0 ∷ l1 ∷ tail in
    let len = from_le (l0 ∷ l1 ∷ []) in
    rw (
      le→ltb (length rest) 4 (omega arith),
      index_lem rest 0 (omega arith),
      index_lem rest 1 (omega arith),
      index_lem rest 2 (omega arith),
      index_lem rest 3 (omega arith),
      lt→ltb (length rest) (4 + len) (omega arith),
    )

-- With a unit of fuel for each byte, no round lacks fuel and none reads out of range.
scan-IsNotPanic :
    (fuel field_num : ℕ) (rest : List ℕ)
    → length rest ≤ fuel
    → IsNotPanic (scan fuel field_num rest)
scan-IsNotPanic fuel field_num [] h = unfold scan in tt
scan-IsNotPanic zero field_num (b ∷ rest) h = absurd (omega arith)
scan-IsNotPanic (suc fuel) field_num (b0 ∷ []) h = unfold scan in tt
scan-IsNotPanic (suc fuel) field_num (b0 ∷ b1 ∷ []) h = unfold scan in tt
scan-IsNotPanic (suc fuel) field_num (b0 ∷ b1 ∷ b2 ∷ []) h = unfold scan in tt
scan-IsNotPanic (suc fuel) field_num (b0 ∷ b1 ∷ b2 ∷ b3 ∷ tail) h =
    elim (Bool-cases (ltb (length tail) (from_le (b2 ∷ b3 ∷ [])))) [
      | inl cut ↦ rw (scan_cut fuel field_num b0 b1 b2 b3 tail (ltb→lt _ _ cut)) tt
      | inr fits ↦ rw (scan_step fuel field_num b0 b1 b2 b3 tail (ltb→le _ _ fits)) (
          if-IsNotPanic (from_le (b0 ∷ b1 ∷ []) == field_num) _ _ tt (
            scan-IsNotPanic fuel field_num (drop (from_le (b2 ∷ b3 ∷ [])) tail)
              (omega (arith, length-drop (from_le (b2 ∷ b3 ∷ [])) tail))))
    ]

-- `find_tlv` comes to an end and reads nothing out of range, on any payload.
pub find_tlv-IsNotPanic : (buf : List ℕ) (field_num : ℕ) → IsNotPanic (find_tlv buf field_num)
unfolding find_tlv
find_tlv-IsNotPanic buf field_num = elim (Bool-cases (ltb (length buf) 10)) [
  | inl short ↦ rw short tt
  | inr long ↦
      rw (long, slice_from_lem buf 10 (ltb→le _ _ long))
        (scan-IsNotPanic (length (drop 10 buf)) field_num (drop 10 buf) (omega arith))
]

if_ok :
    (b : Bool) (x y : Option (List ℕ))
    → ◌≡◌ {A = Exec NegotiationError (Option (List ℕ))}
        (if b then ok x else ok y)
        (ok (if b then x else y))
if_ok true x y = refl
if_ok false x y = refl

scan-entry_bytes :
    (fuel field_num : ℕ) (entries : List Entry)
    → IsEntries entries
    → length (entry_bytes entries) ≤ fuel
    → scan fuel field_num (entry_bytes entries) ≡ ok (lookup field_num entries)
scan-entry_bytes fuel field_num [] h fits = unfold scan in refl
scan-entry_bytes zero field_num ((num, value) ∷ entries) h fits = absurd (omega arith)
scan-entry_bytes (suc fuel) field_num ((num, value) ∷ entries) (small, short, h) fits =
    let size = from_le-le_bytes 2 (length value) short in
    let number = from_le-le_bytes 2 num small in
    let room = length-append value (entry_bytes entries) in
    scan_step fuel field_num _ _ _ _ (value ++ entry_bytes entries) (omega (arith, size, room))
    ∙ picked _ _ size number (scan-entry_bytes fuel field_num entries h (omega (arith, room)))
  where
    picked :
        (l n : ℕ)
        → l ≡ length value
        → n ≡ num
        → scan fuel field_num (entry_bytes entries) ≡ ok (lookup field_num entries)
        → (if n == field_num
            then ok (some (take l (value ++ entry_bytes entries)))
            else scan fuel field_num (drop l (value ++ entry_bytes entries)))
          ≡ ok (lookup field_num ((num, value) ∷ entries))
    picked l n hl hn later =
        rw
          (
            hl,
            hn,
            take-append_self value (entry_bytes entries),
            drop-append_self value (entry_bytes entries),
            later,
          )
          (if_ok (num == field_num) (some value) (lookup field_num entries))

-- On a header of ten bytes with a list of entries behind it, `find_tlv` gives the value of the
-- first entry of that number, and `None` where there is none.
pub find_tlv-entry_bytes :
    (header : List ℕ) (entries : List Entry) (field_num : ℕ)
    → length header ≡ 10
    → IsEntries entries
    → find_tlv (header ++ entry_bytes entries) field_num ≡ ok (lookup field_num entries)
unfolding find_tlv
find_tlv-entry_bytes header entries field_num size h =
    let whole = length-append header (entry_bytes entries) in
    rw
      (
        le→ltb (length (header ++ entry_bytes entries)) 10 (omega (arith, whole)),
        slice_from-append header (entry_bytes entries) 10 (sym size),
      )
      (scan-entry_bytes (length (entry_bytes entries)) field_num entries h (omega arith))
