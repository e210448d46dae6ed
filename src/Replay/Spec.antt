-- ===== src/Replay/Spec.antt =====
-- What a replay window promises, over the history of the counters that were accepted: no counter
-- twice, none as old as the window is long, and never `u64::MAX`.
use microfips.Base.{ℕ, ◌+◌, ◌≤◌, ◌<◌, max, List, [], ◌∷◌, ltb, ◌==◌, Bool, true, false, not}
use microfips.Base.{◌&&◌, ◌||◌, ◌≡◌, ◌≢◌, arith}
use microfips.Replay.{window_size, u64_max}

abbrev pub contains : List ℕ → ℕ → Bool
contains [] c = false
contains (x ∷ h) c = x == c || contains h c

abbrev pub highest_of : List ℕ → ℕ
highest_of [] = 0
highest_of (x ∷ h) = max x (highest_of h)

abbrev pub acceptable : List ℕ → ℕ → Bool
acceptable h c = not (c == u64_max) && not (contains h c) && ltb (highest_of h) (c + window_size)

pub contains-le : (h : List ℕ) (c : ℕ) → contains h c ≡ true → c ≤ highest_of h
contains-le [] c e = ground arith
contains-le (x ∷ h) c e = ground (arith, contains-le h c)

-- A counter above all that were accepted is new.
pub contains_above : (h : List ℕ) (c : ℕ) → highest_of h < c → contains h c ≡ false
contains_above [] c lt = ground arith
contains_above (x ∷ h) c lt = ground (arith, contains_above h c)

-- No counter stands twice in the history.
abbrev pub IsDistinct : List ℕ → Type 0
IsDistinct [] = Unit
IsDistinct (x ∷ h) = (contains h x ≡ false) × IsDistinct h

pub contains-cons_self : (x : ℕ) (h : List ℕ) (c : ℕ) → x ≡ c → contains (x ∷ h) c ≡ true
contains-cons_self x h c e = ground arith

pub contains-cons_ne : (x : ℕ) (h : List ℕ) (c : ℕ) → x ≢ c → contains (x ∷ h) c ≡ contains h c
contains-cons_ne x h c ne = ground arith
