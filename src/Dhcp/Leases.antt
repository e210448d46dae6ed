-- ===== src/Dhcp/Leases.antt =====
-- The pool of addresses and the table of leases of
-- crates/microfips-esp-common/src/dhcp_server.rs. The table has a place for each of the `N`
-- addresses of the pool.
use microfips.Base.{
  ℕ, suc, ◌+◌, ◌-◌, ◌*◌, ◌/◌, ◌%◌, ◌^◌, List, [], ◌∷◌, Option, none, some, Bool, true, false, ◌&&◌,
  ltb, leb, if◌then◌else◌, length, get_or, set,
}
use microfips.Bytes.{eq_bytes}
use microfips.Exec.{Exec, ok, panic, Absent}

pub record Config : Type 0 where
  pub server_ip : List ℕ
  pub subnet_mask : List ℕ
  pub pool_start : List ℕ
  pub lease_secs : ℕ

pub record Lease : Type 0 where
  pub mac : List ℕ
  pub expires_at : ℕ

pub record Server : Type 0 where
  pub cfg : Config
  pub leases : List (Option Lease)

-- `u32::from_be_bytes` and `to_be_bytes`.
abbrev pub from_be_onto : ℕ → List ℕ → ℕ
from_be_onto n [] = n
from_be_onto n (b ∷ bs) = from_be_onto (n * 256 + b) bs

abbrev pub from_be : List ℕ → ℕ
from_be bs = from_be_onto 0 bs

abbrev pub to_be : ℕ → List ℕ
to_be n = n / 2 ^ 24 % 256 ∷ n / 2 ^ 16 % 256 ∷ n / 2 ^ 8 % 256 ∷ n % 256 ∷ []

-- The sum panics where it does not fit in a `u32`.
unfoldable pub ip_for : Server → ℕ → Exec Absent (List ℕ)
ip_for s idx =
    let host = from_be s.cfg.pool_start + idx in
    if ltb host (2 ^ 32) then ok (to_be host) else panic

unfoldable pub idx_for_ip : Server → List ℕ → Option ℕ
idx_for_ip s ip =
    let start = from_be s.cfg.pool_start in
    let v = from_be ip in
    if leb start v && ltb (v - start) (length s.leases) then some (v - start) else none

-- `iter().position(test)`
abbrev pub position : (Option Lease → Bool) → List (Option Lease) → Option ℕ
position test [] = none
position test (l ∷ ls) =
    let later = position test ls in
    if test l then some 0 else elim later [ none ↦ none | some i ↦ some (suc i) ]

abbrev pub is_leased_to : (mac : List ℕ) (now : ℕ) → Option Lease → Bool
is_leased_to mac now none = false
is_leased_to mac now (some l) = eq_bytes l.mac mac && ltb now l.expires_at

abbrev pub is_free : (now : ℕ) → Option Lease → Bool
is_free now none = true
is_free now (some l) = leb l.expires_at now

unfoldable pub find_lease : Server → (mac : List ℕ) (now : ℕ) → Option ℕ
find_lease s mac now = position (is_leased_to mac now) s.leases

-- `self.leases[idx]`, at an index that `idx_for_ip` has found to be below `N`.
abbrev pub lease_at : Server → ℕ → Option Lease
lease_at s idx = get_or s.leases idx none

abbrev pub free_among : Option ℕ → Server → (now : ℕ) → Option ℕ
free_among none s now = position (is_free now) s.leases
free_among (some idx) s now =
    if is_free now (lease_at s idx) then some idx else position (is_free now) s.leases

abbrev pub preferred_idx : Server → Option (List ℕ) → Option ℕ
preferred_idx s none = none
preferred_idx s (some ip) = idx_for_ip s ip

abbrev pub found_or : Option ℕ → Option ℕ → Option ℕ
found_or (some idx) other = some idx
found_or none other = other

-- The lease of this MAC, else the preferred address if it is free, else the first that is free.
unfoldable pub allocate : Server → (mac : List ℕ) (now : ℕ) (preferred : Option (List ℕ)) → Option ℕ
allocate s mac now preferred =
    found_or (find_lease s mac now) (free_among (preferred_idx s preferred) s now)

-- The sum panics where it does not fit in a `u64`.
unfoldable pub commit : Server → (idx : ℕ) (mac : List ℕ) (now : ℕ) → Exec Absent Server
commit s idx mac now =
    let expires = now + s.cfg.lease_secs in
    if ltb expires (2 ^ 64)
    then ok
        (record s { leases = set s.leases idx (some (record { mac = mac; expires_at = expires })) })
    else panic

abbrev count_live : ℕ → List (Option Lease) → ℕ
count_live now [] = 0
count_live now (l ∷ ls) = (if is_free now l then 0 else 1) + count_live now ls

unfoldable pub active_leases : Server → ℕ → ℕ
active_leases s now = count_live now s.leases
