-- ===== src/Exec/Write.antt =====
-- A builder that writes its buffer from the front: what is written so far, and the next write.
use microfips.Base.{
  ℕ, zero, suc, ◌+◌, ◌≤◌, ◌<◌, List, [], ◌∷◌, ◌++◌, length, drop, set, get_or, ◌≡◌, refl, arith,
}
use microfips.Base.{ap, sym, ◌∙◌, length-append, length-drop, drop_all, append-nil, append_assoc}
use microfips.Exec.Monad.{ok}
use microfips.Exec.Buffer.{copy_into, store}
use microfips.Exec.Laws.{copy_into-next, copy_into-append, drop-drop, store_lem}

-- The buffer `out` after `written` was written at its front.
abbrev pub after : List ℕ → List ℕ → List ℕ
after written out = written ++ drop (length written) out

pub next {ℓ} :
    {E : Type ℓ} (written src out : List ℕ) (a b : ℕ)
    → a ≡ length written
    → b ≡ a + length src
    → b ≤ length out
    → copy_into {E = E} (after written out) a b src ≡ ok (after (written ++ src) out)
next written src out a b ha hb fits =
    let whole = length-append written src in
    let here : length written ≡ a = sym ha in
    let there : length (written ++ src) ≡ b = omega (arith, whole) in
    rw (here, there) (copy_into-next written src out a b ha hb fits)

drop-cons : (a : ℕ) (out : List ℕ) → a < length out → drop a out ≡ get_or out a 0 ∷ drop (suc a) out
drop-cons a [] h = absurd (omega arith)
drop-cons zero (x ∷ out) h = refl
drop-cons (suc a) (x ∷ out) h = drop-cons a out (omega arith)

set-append :
    (xs : List ℕ) (y : ℕ) (ys : List ℕ) (v : ℕ)
    → set (xs ++ (y ∷ ys)) (length xs) v ≡ (xs ++ (v ∷ [])) ++ ys
set-append [] y ys v = refl
set-append (x ∷ xs) y ys v = ap (λ t. x ∷ t) (set-append xs y ys v)

-- The same for one byte.
pub next_byte {ℓ} :
    {E : Type ℓ} (written out : List ℕ) (a v : ℕ)
    → a ≡ length written
    → a < length out
    → store {E = E} (after written out) a v ≡ ok (after (written ++ (v ∷ [])) out)
next_byte written out a v ha fits =
    let whole = length-append written (drop (length written) out) in
    let there : length (written ++ (v ∷ [])) ≡ suc (length written) =
      omega (arith, length-append written (v ∷ [])) in
    store_lem (after written out) a v (omega (arith, whole, length-drop (length written) out))
    ∙ rw (ha, there, drop-cons (length written) out (omega arith))
        (ap ok
          (set-append written (get_or out (length written) 0) (drop (suc (length written)) out) v))

-- The rest of the buffer is given to a writer of its own, and written back.
pub fill_rest {ℓ} :
    {E : Type ℓ} (written src out : List ℕ) (a : ℕ)
    → a ≡ length written
    → length written + length src ≤ length out
    → copy_into {E = E}
        (after written out)
        a
        (length (after written out))
        (after src (drop (length written) out))
      ≡ ok (after (written ++ src) out)
fill_rest written src out a ha fits =
    let rest = drop (length written) out in
    let size_rest = length-drop (length written) out in
    let filled = after src rest in
    let full : length filled ≡ length rest =
      omega (arith, length-append src (drop (length src) rest), length-drop (length src) rest) in
    let total : length (written ++ src) ≡ length written + length src = length-append written src in
    rw (
      copy_into-append written rest filled a (length (after written out)) ha
          (omega (arith, full, length-append written rest)) (omega (arith, full)),
      drop_all (length filled) rest (omega (arith, full)),
      append-nil (written ++ filled),
      total,
      drop-drop (length src) (length written) out,
      append_assoc written src (drop (length written + length src) out),
    )
