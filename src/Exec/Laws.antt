-- ===== src/Exec/Laws.antt =====
-- What a read or a write of a buffer gives when the range fits.
use microfips.Base.{
  ℕ, zero, suc, ◌+◌, ◌-◌, ◌^◌, ◌≤◌, ◌<◌, List, [], ◌∷◌, ◌++◌, append_assoc, length, take, drop,
}
use microfips.Base.{get_or, ◌≡◌, arith, ap, refl, sym, ◌∙◌, set, take-append_self, drop-append_self}
use microfips.Base.{le→leb, leb, true, ◌==◌, ==_iff, length-append, length-drop}
use microfips.Bytes.{from_le, le_bytes, from_le-le_bytes, length-le_bytes}
use microfips.Exec.Monad.{ok}
use microfips.Exec.Buffer.{index, store, slice, slice_from, copy_into, read_le}

pub drop-append_past {ℓ} :
    {A : Type ℓ} (xs ys : List A) (k : ℕ) → drop (length xs + k) (xs ++ ys) ≡ drop k ys
drop-append_past [] ys k = ap (λ t. drop t ys) (omega arith)
drop-append_past (x ∷ xs) ys k =
    let step : suc (length xs) + k ≡ suc (length xs + k) = omega arith in
    rw step (drop-append_past xs ys k)

pub get_or-append_past :
    (xs ys : List ℕ) (k d : ℕ) → get_or (xs ++ ys) (length xs + k) d ≡ get_or ys k d
get_or-append_past [] ys k d = ap (λ t. get_or ys t d) (omega arith)
get_or-append_past (x ∷ xs) ys k d =
    let step : suc (length xs) + k ≡ suc (length xs + k) = omega arith in
    rw step (get_or-append_past xs ys k d)

module _ {ℓ} {E : Type ℓ} where
  pub index_lem :
      (buf : List ℕ) (i : ℕ) → i < length buf → index {E = E} buf i ≡ ok (get_or buf i 0)
  unfolding index
  index_lem buf i h = ground arith

  pub store_lem :
      (buf : List ℕ) (i v : ℕ) → i < length buf → store {E = E} buf i v ≡ ok (set buf i v)
  unfolding store
  store_lem buf i v h = ground arith

  pub slice_lem :
      (buf : List ℕ) (a b : ℕ)
      → a ≤ b
      → b ≤ length buf
      → slice {E = E} buf a b ≡ ok (take (b - a) (drop a buf))
  unfolding slice
  slice_lem buf a b h k = rw (le→leb a b h, le→leb b (length buf) k)

  pub slice_from_lem :
      (buf : List ℕ) (a : ℕ) → a ≤ length buf → slice_from {E = E} buf a ≡ ok (drop a buf)
  unfolding slice_from
  slice_from_lem buf a h = ground arith

  pub read_le_lem :
      (buf : List ℕ) (a b : ℕ)
      → a ≤ b
      → b ≤ length buf
      → read_le {E = E} buf a b ≡ ok (from_le (take (b - a) (drop a buf)))
  unfolding read_le
  read_le_lem buf a b h k = rw (le→leb a b h, le→leb b (length buf) k)

  -- A slice of a concatenation that cuts out its middle part.
  pub slice-append :
      (xs ys zs : List ℕ) (a b : ℕ)
      → a ≡ length xs
      → b ≡ length xs + length ys
      → slice {E = E} (xs ++ (ys ++ zs)) a b ≡ ok ys
  slice-append xs ys zs a b ha hb =
      let width : b - a ≡ length ys = omega arith in
      let at_end : a ≡ length xs = ha in
      slice_lem (xs ++ (ys ++ zs)) a b (omega arith)
        (omega (arith, length-append xs (ys ++ zs), length-append ys zs))
      ∙ rw (width, at_end, drop-append_self xs (ys ++ zs), take-append_self ys zs)

  pub slice_from-append :
      (xs ys : List ℕ) (a : ℕ) → a ≡ length xs → slice_from {E = E} (xs ++ ys) a ≡ ok ys
  slice_from-append xs ys a ha =
      slice_from_lem (xs ++ ys) a (omega (arith, length-append xs ys))
      ∙ rw (ha, drop-append_self xs ys)

  -- An integer that was written behind `xs` is read there.
  pub read_le-append :
      (xs zs : List ℕ) (w n a b : ℕ)
      → a ≡ length xs
      → b ≡ length xs + w
      → n < 256 ^ w
      → read_le {E = E} (xs ++ (le_bytes w n ++ zs)) a b ≡ ok n
  unfolding read_le
  read_le-append xs zs w n a b ha hb fits = rw (
    slice-append xs (le_bytes w n) zs a b ha (omega (arith, length-le_bytes w n)),
    from_le-le_bytes w n fits,
  )

  -- A write just behind the part that was written extends that part.
  pub copy_into-append :
      (xs rest src : List ℕ) (a b : ℕ)
      → a ≡ length xs
      → b ≡ length xs + length src
      → length src ≤ length rest
      → copy_into {E = E} (xs ++ rest) a b src ≡ ok ((xs ++ src) ++ drop (length src) rest)
  unfolding copy_into
  copy_into-append xs rest src a b ha hb fits =
      let low : leb a b ≡ true = le→leb a b (omega arith) in
      let high : leb b (length (xs ++ rest)) ≡ true =
        le→leb b (length (xs ++ rest)) (omega (arith, length-append xs rest)) in
      let width : b - a ≡ length src = omega arith in
      let same : (length src == length src) ≡ true = (==_iff (length src) (length src)).1 refl in
      let kept : take a (xs ++ rest) ≡ xs = rw ha (take-append_self xs rest) in
      let after : drop (a + length src) (xs ++ rest) ≡ drop (length src) rest =
        rw ha (drop-append_past xs rest (length src)) in
      rw (low, high, width, same, kept, after)
        (ap ok (sym (append_assoc xs src (drop (length src) rest))))

pub drop-drop {ℓ} : {A : Type ℓ} (a b : ℕ) (xs : List A) → drop a (drop b xs) ≡ drop (b + a) xs
drop-drop a zero xs = ap (λ t. drop t xs) (omega arith)
drop-drop zero (suc b) [] = let same : suc b + 0 ≡ suc b = omega arith in rw same
drop-drop (suc a) (suc b) [] = let step : suc b + suc a ≡ suc (b + suc a) = omega arith in rw step
drop-drop a (suc b) (x ∷ xs) =
    let step : suc b + a ≡ suc (b + a) = omega arith in rw step (drop-drop a b xs)

-- The next write of a builder, whose writes so far are `xs`: the rest of `out` is still there.
pub copy_into-next {ℓ} :
    {E : Type ℓ} (xs src out : List ℕ) (a b : ℕ)
    → a ≡ length xs
    → b ≡ a + length src
    → b ≤ length out
    → copy_into {E = E} (xs ++ drop a out) a b src ≡ ok ((xs ++ src) ++ drop b out)
copy_into-next xs src out a b ha hb fits =
    copy_into-append xs (drop a out) src a b ha (omega arith) (omega (arith, length-drop a out))
    ∙ ap (λ t. ok ((xs ++ src) ++ t)) (drop-drop (length src) a out ∙ ap (λ t. drop t out) (sym hb))

-- A write over a part of its own length replaces that part.
pub copy_into-front {ℓ} :
    {E : Type ℓ} (old new rest : List ℕ) (b : ℕ)
    → length new ≡ length old
    → b ≡ length new
    → copy_into {E = E} (old ++ rest) 0 b new ≡ ok (new ++ rest)
copy_into-front old new rest b same hb =
    let after : drop (length new) (old ++ rest) ≡ rest = rw same (drop-append_self old rest) in
    copy_into-append [] (old ++ rest) new 0 b refl (omega arith)
      (omega (arith, length-append old rest))
    ∙ rw after
