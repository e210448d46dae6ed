-- ===== src/EspNow/Pieces.antt =====
-- What each call of the loops of a sender and of a receiver gives.
use microfips.Base.{
  ℕ, zero, suc, ◌+◌, ◌-◌, ◌≡◌, ◌<◌, min, List, [], ◌∷◌, ◌++◌, Option, some, Bool, true, false, ◌==◌,
  ◌&&◌, ==_iff, not, if◌then◌else◌, length, take, drop, lt→ltb, arith, refl, bit_and, bit_or,
}
use microfips.Exec.{ok, Absent, ◌>>=◌}
use microfips.Exec.Laws.{slice_lem, slice_from_lem}
use microfips.EspNow.Frag.{
  FragmentIter, Reassembler, next_fragment, payloads, push, receive, completed, fragment_header,
  is_last, idx_of, idx_mask, last_flag, no_bytes, max_chunk,
}

-- The second byte of a fragment's header.
abbrev pub flags_of : ℕ → Bool → ℕ
flags_of idx last = bit_or (bit_and idx idx_mask) (if last then last_flag else 0)

all_below : ℕ → (ℕ → Bool) → Bool
all_below zero p = true
all_below (suc n) p = p n && all_below n p

all_below_sound : (n : ℕ) (p : ℕ → Bool) (i : ℕ) → all_below n p ≡ true → i < n → p i ≡ true
unfolding all_below
all_below_sound zero p i h lt = absurd (omega arith)
all_below_sound (suc n) p i h lt = ground (arith, all_below_sound n p i)

-- The index and the flag of a header are read back.
abbrev agrees : ℕ → Bool
agrees i =
    idx_of (flags_of i true) == i
    && idx_of (flags_of i false) == i
    && is_last (flags_of i true)
    && not (is_last (flags_of i false))

flags_table : all_below 128 agrees ≡ true
unfolding all_below
flags_table = refl

all_four :
    (a b c d : Bool)
    → (a && b && c && not d) ≡ true
    → (a ≡ true) × (b ≡ true) × (c ≡ true) × (d ≡ false)
all_four a b c d h = ground arith

agrees_lem :
    (i : ℕ)
    → i < 128
    → (idx_of (flags_of i true) ≡ i)
      × (idx_of (flags_of i false) ≡ i)
      × (is_last (flags_of i true) ≡ true)
      × (is_last (flags_of i false) ≡ false)
agrees_lem i h =
    let (a, b, c, d) =
      all_four (idx_of (flags_of i true) == i) (idx_of (flags_of i false) == i)
        (is_last (flags_of i true)) (is_last (flags_of i false))
        (all_below_sound 128 agrees i flags_table h) in
    ((==_iff (idx_of (flags_of i true)) i).0 a, (==_iff (idx_of (flags_of i false)) i).0 b, c, d)

pub flags_lem :
    (i : ℕ) (last : Bool)
    → i < 128
    → (idx_of (flags_of i last) ≡ i) × (is_last (flags_of i last) ≡ last)
flags_lem i true h = let (a, b, c, d) = agrees_lem i h in (a, c)
flags_lem i false h = let (a, b, c, d) = agrees_lem i h in (b, d)

-- The chunk that the next fragment carries, and what is left after it.
abbrev pub cut : List ℕ → ℕ
cut rest = min (length rest) max_chunk

next_fragment_lem :
    (id idx : ℕ) (rest : List ℕ)
    → idx < 255
    → next_fragment (record { msg_id = id; rest = rest; idx = idx; done = false })
      ≡ ok (
        some (fragment_header id idx (no_bytes (drop (cut rest) rest)), take (cut rest) rest),
        record {
          msg_id = id;
          rest = drop (cut rest) rest;
          idx = idx + 1;
          done = no_bytes (drop (cut rest) rest);
        },
      )
unfolding next_fragment
next_fragment_lem id idx rest few =
    let n = cut rest in
    let at_start : n - 0 ≡ n = omega arith in
    rw (
      slice_lem {E = Absent} rest 0 n (omega arith) (omega arith),
      slice_from_lem {E = Absent} rest n (omega arith),
      lt→ltb idx 255 few,
      at_start,
    )

abbrev pub running : (id idx : ℕ) (rest : List ℕ) (done : Bool) → FragmentIter
running id idx rest done = record { msg_id = id; rest = rest; idx = idx; done = done }

pub payloads_end :
    (fuel id idx : ℕ) (rest : List ℕ) → payloads (suc fuel) (running id idx rest true) ≡ ok []
unfolding payloads next_fragment
payloads_end fuel id idx rest = refl

pub payloads_first :
    (fuel id idx : ℕ) (rest : List ℕ)
    → idx < 255
    → payloads (suc fuel) (running id idx rest false) ≡ (do
      more ←
          payloads fuel
            (running id (idx + 1) (drop (cut rest) rest) (no_bytes (drop (cut rest) rest)))
      ok ((id ∷ flags_of idx (no_bytes (drop (cut rest) rest)) ∷ take (cut rest) rest) ∷ more))
unfolding payloads
payloads_first fuel id idx rest few = rw (next_fragment_lem id idx rest few)

pub receive_first :
    (r : Reassembler) (p : List ℕ) (ps : List (List ℕ)) (one : Option (List ℕ) × Reassembler)
    → push r p ≡ ok one
    → receive r (p ∷ ps) ≡ (do more ← receive one.1 ps; ok (completed one.0 ++ more.0, more.1))
unfolding receive
receive_first r p ps one e = rw e

pub no_bytes_iff : (xs : List ℕ) → (no_bytes xs ≡ true) → xs ≡ []
no_bytes_iff [] h = refl
no_bytes_iff (x ∷ xs) h = cc

pub some_bytes : (xs : List ℕ) → (no_bytes xs ≡ false) → 0 < length xs
some_bytes [] h = cc
some_bytes (x ∷ xs) h = omega arith
