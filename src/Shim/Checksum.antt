-- ===== src/Shim/Checksum.antt =====
-- What the update of a checksum keeps.
use microfips.Base.{
  ℕ, suc, ◌+◌, ◌-◌, ◌/◌, ◌%◌, ◌^◌, ◌≡◌, ◌≤◌, ◌<◌, some, true, false, ◌!=◌, arith, refl, ◌∙◌, ltb,
  ltb→lt, ltb→le, Bool-cases, inl, inr, ◌⊎◌,
}
use microfips.Shim.{fold_carries, checksum_update}

below_or_not : (a b : ℕ) → (a < b) ⊎ (b ≤ a)
below_or_not a b = elim (Bool-cases (ltb a b)) [
  | inl less ↦ inl (ltb→lt a b less)
  | inr more ↦ inr (ltb→le a b more)
]

fold_end : (fuel sum : ℕ) → sum < 65536 → fold_carries (suc fuel) sum ≡ some sum
unfolding fold_carries
fold_end fuel sum h = let no_carry : (sum / 65536 != 0) ≡ false = ground arith in rw no_carry

fold_step :
    (fuel sum : ℕ)
    → 65536 ≤ sum
    → fold_carries (suc fuel) sum ≡ fold_carries fuel (sum % 65536 + sum / 65536)
unfolding fold_carries
fold_step fuel sum h = let carry : (sum / 65536 != 0) ≡ true = ground arith in rw carry

fold_twice :
    (sum : ℕ)
    → sum < 65538
    → (n : ℕ) × (fold_carries 2 sum ≡ some n) × (n < 65536) × (n % 65535 ≡ sum % 65535)
fold_twice sum h = elim (below_or_not sum 65536) [
  | inl low ↦ (sum, fold_end 1 sum low, low, refl)
  | inr high ↦
      let next = sum % 65536 + sum / 65536 in
      (next, fold_step 1 sum high ∙ fold_end 0 next (omega arith), omega arith, omega arith)
]

fold_all :
    (sum : ℕ)
    → sum < 196608
    → (n : ℕ) × (fold_carries 3 sum ≡ some n) × (n < 65536) × (n % 65535 ≡ sum % 65535)
fold_all sum h = elim (below_or_not sum 65536) [
  | inl low ↦ (sum, fold_end 2 sum low, low, refl)
  | inr high ↦
      let next = sum % 65536 + sum / 65536 in
      let (n, e, fits, same) = fold_twice next (omega arith) in
      (n, fold_step 2 sum high ∙ e, fits, omega (arith, same))
]

-- A checksum over which the words of a message and the rest of what it covers add up to a multiple of
-- 65535: where one of the words is replaced, the update ends, and with the checksum that it gives the
-- sum is a multiple again.
pub checksum_update-valid :
    (hc m m_new rest : ℕ)
    → hc < 65536
    → m < 65536
    → m_new < 65536
    → (rest + m + hc) % 65535 ≡ 0
    → (hc_new : ℕ) × (checksum_update hc m m_new ≡ some hc_new)
      × (hc_new < 65536)
      × ((rest + m_new + hc_new) % 65535 ≡ 0)
unfolding checksum_update
checksum_update-valid hc m m_new rest h k l valid =
    let sum = (2 ^ 16 - 1 - hc) + (2 ^ 16 - 1 - m) + m_new in
    let (n, e, fits, same) = fold_all sum (omega arith) in
    (2 ^ 16 - 1 - n % 2 ^ 16, rw e refl, omega arith, omega (arith, same))
