-- ===== src/Dhcp/Slots.antt =====
-- Which places of the table a client may be given.
use microfips.Base.{
  ℕ, suc, ◌≡◌, ◌<◌, List, [], ◌∷◌, Option, none, some, Bool, true, false, ◌||◌, length, get_or,
  arith, refl, inl, inr, Bool-cases,
}
use microfips.Bytes.{eq_bytes}
use microfips.Dhcp.Leases.{
  Server, Lease, position, is_leased_to, is_free, find_lease, idx_for_ip, lease_at, free_among,
  preferred_idx, found_or, allocate,
}
use microfips.Dhcp.Server.{may_take, place_at}

-- A place of the table that is free at this time or leased to this MAC.
abbrev pub IsOpen : Server → (mac : List ℕ) (now idx : ℕ) → Type 0
IsOpen s mac now idx = (idx < length s.leases) × (may_take mac now (lease_at s idx) ≡ true)

abbrev pub AllOpen : Server → (mac : List ℕ) (now : ℕ) → Option ℕ → Type 0
AllOpen s mac now none = Unit
AllOpen s mac now (some idx) = IsOpen s mac now idx

-- `position` gives a place that passes the test.
abbrev Passes : (Option Lease → Bool) → List (Option Lease) → Option ℕ → Type 0
Passes test ls none = Unit
Passes test ls (some i) = (i < length ls) × (test (get_or ls i none) ≡ true)

position-Passes :
    (test : Option Lease → Bool) (ls : List (Option Lease)) → Passes test ls (position test ls)
position-Passes test [] = tt
position-Passes test (l ∷ ls) = elim (Bool-cases (test l)) [
  | inl this ↦ rw this (omega arith, this)
  | inr other ↦ rw other (later (position test ls) (position-Passes test ls))
]
  where
    later :
        (i : Option ℕ)
        → Passes test ls i
        → Passes test (l ∷ ls) (elim i [ none ↦ none | some j ↦ some (suc j) ])
    later none h = tt
    later (some i) h = (omega arith, h.1)

leased-may_take :
    (mac : List ℕ) (now : ℕ) (l : Option Lease)
    → is_leased_to mac now l ≡ true
    → may_take mac now l ≡ true
leased-may_take mac now none h = cc
leased-may_take mac now (some l) h = ground arith

free-may_take :
    (mac : List ℕ) (now : ℕ) (l : Option Lease) → is_free now l ≡ true → may_take mac now l ≡ true
free-may_take mac now none h = refl
free-may_take mac now (some l) h = rw h (or_true (eq_bytes l.mac mac))
  where
    or_true : (b : Bool) → (b || true) ≡ true
    or_true true = refl
    or_true false = refl

-- A test that only lets a client take a place finds a place that is open to it.
position-AllOpen :
    (s : Server) (mac : List ℕ) (now : ℕ) (test : Option Lease → Bool)
    → ((l : Option Lease) → test l ≡ true → may_take mac now l ≡ true)
    → AllOpen s mac now (position test s.leases)
position-AllOpen s mac now test lets =
    among (position test s.leases) (position-Passes test s.leases)
  where
    among : (i : Option ℕ) → Passes test s.leases i → AllOpen s mac now i
    among none h = tt
    among (some i) h = (h.0, lets (lease_at s i) h.1)

idx_for_ip-lt :
    (s : Server) (ip : List ℕ) {idx : ℕ} → idx_for_ip s ip ≡ some idx → idx < length s.leases
unfolding idx_for_ip
idx_for_ip-lt s ip e = ground arith

preferred_idx-lt :
    (s : Server) (want : Option (List ℕ)) {idx : ℕ}
    → preferred_idx s want ≡ some idx
    → idx < length s.leases
preferred_idx-lt s none e = cc
preferred_idx-lt s (some ip) e = idx_for_ip-lt s ip e

free_among-AllOpen :
    (s : Server) (mac : List ℕ) (now : ℕ) (preferred : Option ℕ)
    → ((idx : ℕ) → preferred ≡ some idx → idx < length s.leases)
    → AllOpen s mac now (free_among preferred s now)
free_among-AllOpen s mac now none inside =
    position-AllOpen s mac now (is_free now) (free-may_take mac now)
free_among-AllOpen s mac now (some idx) inside = elim (Bool-cases (is_free now (lease_at s idx))) [
  | inl free ↦ rw free (inside idx refl, free-may_take mac now (lease_at s idx) free)
  | inr taken ↦ rw taken (position-AllOpen s mac now (is_free now) (free-may_take mac now))
]

found_or-AllOpen :
    (s : Server) (mac : List ℕ) (now : ℕ) (found other : Option ℕ)
    → AllOpen s mac now found
    → AllOpen s mac now other
    → AllOpen s mac now (found_or found other)
found_or-AllOpen s mac now none other h k = k
found_or-AllOpen s mac now (some idx) other h k = h

pub allocate-AllOpen :
    (s : Server) (mac : List ℕ) (now : ℕ) (preferred : Option (List ℕ))
    → AllOpen s mac now (allocate s mac now preferred)
unfolding allocate find_lease
allocate-AllOpen s mac now preferred =
    found_or-AllOpen s mac now (find_lease s mac now) (free_among (preferred_idx s preferred) s now)
      (position-AllOpen s mac now (is_leased_to mac now) (leased-may_take mac now))
      (free_among-AllOpen s mac now (preferred_idx s preferred)
        (λ idx e. preferred_idx-lt s preferred e))

pub find_lease-AllOpen :
    (s : Server) (mac : List ℕ) (now : ℕ) → AllOpen s mac now (find_lease s mac now)
unfolding find_lease
find_lease-AllOpen s mac now =
    position-AllOpen s mac now (is_leased_to mac now) (leased-may_take mac now)

place_at_cases :
    (s : Server) (mac : List ℕ) (now : ℕ) (idx : Option ℕ) (want : Option (List ℕ))
    → ((i : ℕ) → idx ≡ some i → i < length s.leases)
    → AllOpen s mac now (place_at idx want s mac now)
place_at_cases s mac now none none inside = allocate-AllOpen s mac now none
place_at_cases s mac now none (some ip) inside = tt
place_at_cases s mac now (some i) want inside =
    elim (Bool-cases (may_take mac now (lease_at s i))) [
      | inl may ↦ rw may (inside i refl, may)
      | inr other ↦ rw other tt
    ]

pub place_at-AllOpen :
    (s : Server) (mac : List ℕ) (now : ℕ) (want : Option (List ℕ))
    → AllOpen s mac now (place_at (preferred_idx s want) want s mac now)
place_at-AllOpen s mac now want =
    place_at_cases s mac now (preferred_idx s want) want (λ i e. preferred_idx-lt s want e)
