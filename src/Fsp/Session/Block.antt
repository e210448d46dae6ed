-- ===== src/Fsp/Session/Block.antt =====
-- The negotiation payload that a session on Noise XX seals behind its messages.
use microfips.Base.{
  ℕ, ◌+◌, ◌≤◌, List, ◌++◌, length, drop, none, replicate, ◌≡◌, refl, arith, length-append,
}
use microfips.Exec.{ok, slice, store, copy_into}
use microfips.Exec.Laws.{slice_lem, slice_from-append}
use microfips.Exec.Write.{after, fill_rest}
use microfips.Noise.{NoiseError}
use microfips.Noise.Method.{Method}
use microfips.Negotiation.{encode_payload, write_rekey}
use microfips.Fsp.Session.Xx.{append_sealed}

-- The negotiation payload of a session: version 0 to 0, no features.
abbrev pub block : List ℕ
block = replicate 10 0

encode_block : encode_payload (replicate 64 0) 0 0 0 none ≡ ok (10, replicate 64 0)
unfolding encode_payload store copy_into write_rekey
encode_block = refl

-- The payload is sealed behind a message that was written, where the buffer has 26 bytes left.
pub append_sealed_lem :
    {S E : Type 0} (too_small : E) (convert : NoiseError → E)
    (encrypt : List ℕ → List ℕ → Method NoiseError S (ℕ × List ℕ)) (written enc out : List ℕ)
    (len : ℕ) (s t : S)
    → len ≡ length written
    → length enc ≡ 26
    → len + 26 ≤ length out
    → encrypt block (drop (length written) out) s
      ≡ (ok (26, after enc (drop (length written) out)), t)
    → append_sealed too_small convert encrypt len (after written out) s
      ≡ (ok (length (written ++ enc), after (written ++ enc) out), t)
unfolding append_sealed
append_sealed_lem {E = E} too_small convert encrypt written enc out len s t here size room e =
    let total : len + 26 ≡ length (written ++ enc) = omega (arith, length-append written enc) in
    let cut : slice {E = E} (replicate 64 0) 0 10 ≡ ok block =
      slice_lem (replicate 64 0) 0 10 (omega arith) (omega arith) in
    rw (
      encode_block,
      cut,
      slice_from-append {E = E} written (drop (length written) out) len here,
      e,
      fill_rest {E = E} written enc out len here (omega arith),
      total,
    )
