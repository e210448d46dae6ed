-- ===== src/Dhcp/Fair.antt =====
-- What the answer to a request gives, and what it leaves to the other clients.
use microfips.Base.{
  ℕ, zero, suc, ◌+◌, ◌^◌, ◌≡◌, ◌≤◌, ◌<◌, ◌==◌, ◌⊎◌, List, [], ◌∷◌, Option, none, some, true, false,
  leb, lt→ltb, lt→leb, length, length-set, get_or, set, arith, refl, sym, ap, ◌∙◌, inl, inr,
  Bool-cases,
}
use microfips.Bytes.{eq_bytes}
use microfips.Exec.{ok}
use microfips.Exec.Post.{Returns}
use microfips.Dhcp.Request.{Request}
use microfips.Dhcp.Leases.{
  Config, Server, Lease, lease_at, from_be, to_be, ip_for, commit, allocate, find_lease,
  preferred_idx,
}
use microfips.Dhcp.Server.{
  Answer, msg_nak, offer, on_discover, on_request, on_release, acknowledge, place_at, drop_lease,
  answer, wanted, is_for_other, may_take,
}
use microfips.Dhcp.Slots.{IsOpen, AllOpen, allocate-AllOpen, find_lease-AllOpen, place_at-AllOpen}

-- The pool fits in the addresses, and a lease of this time in a `u64`.
abbrev pub FitsAt : Server → (now : ℕ) → Type 0
FitsAt s now =
    (from_be s.cfg.pool_start + length s.leases ≤ 2 ^ 32) × (now + s.cfg.lease_secs < 2 ^ 64)

-- The place `idx` holds this lease.
abbrev pub Holds : Server → ℕ → Lease → Type 0
Holds s idx l = lease_at s idx ≡ some l

-- A lease that is live at this time and belongs to another client.
abbrev pub IsOthers : (mac : List ℕ) (now : ℕ) (l : Lease) → Type 0
IsOthers mac now l = (eq_bytes l.mac mac ≡ false) × (now < l.expires_at)

-- An answer that does not give away the place `idx`.
abbrev pub Spares : Config → ℕ → Option Answer → Type 0
Spares cfg idx none = Unit
Spares cfg idx (some a) =
    (a.msg_type ≡ msg_nak) ⊎ (from_be a.yiaddr ≡ from_be cfg.pool_start + idx → ⊥)

-- A request of the client `mac`: the pool stays, and a live lease of another client stays and its
-- address is not given away.
abbrev pub IsFair : Server → (mac : List ℕ) (now : ℕ) → Option Answer × Server → Type 0
IsFair s mac now (a, s') =
    (s'.cfg ≡ s.cfg)
    × (length s'.leases ≡ length s.leases)
    × ((idx : ℕ) (l : Lease)
        → Holds s idx l
        → IsOthers mac now l
        → Holds s' idx l × Spares s.cfg idx a)

pub from_be-to_be : (n : ℕ) → n < 2 ^ 32 → from_be (to_be n) ≡ n
from_be-to_be n h = omega arith

pub ip_for_lem :
    (s : Server) (idx : ℕ)
    → from_be s.cfg.pool_start + idx < 2 ^ 32
    → ip_for s idx ≡ ok (to_be (from_be s.cfg.pool_start + idx))
unfolding ip_for
ip_for_lem s idx h = rw (lt→ltb (from_be s.cfg.pool_start + idx) (2 ^ 32) h)

-- A place that is open to a client holds no live lease of another.
open_other :
    (s : Server) (mac : List ℕ) (now i idx : ℕ) (l : Lease)
    → IsOpen s mac now i
    → Holds s idx l
    → IsOthers mac now l
    → i ≡ idx
    → ⊥
open_other s mac now i idx l (inside, may) holds (other, live) same =
    let may' : may_take mac now (some l) ≡ true =
      ap (may_take mac now) (sym holds ∙ ap (lease_at s) (sym same)) ∙ may in
    let expired : leb l.expires_at now ≡ false = lt→leb l.expires_at now live in
    let no : may_take mac now (some l) ≡ false = rw (other, expired) in cc

get_or-set_other {ℓ} :
    {A : Type ℓ} (xs : List A) (i j : ℕ) (v d : A)
    → (i ≡ j → ⊥)
    → get_or (set xs i v) j d ≡ get_or xs j d
get_or-set_other [] i j v d h = refl
get_or-set_other (x ∷ xs) zero zero v d h = absurd (h refl)
get_or-set_other (x ∷ xs) zero (suc j) v d h = refl
get_or-set_other (x ∷ xs) (suc i) zero v d h = refl
get_or-set_other (x ∷ xs) (suc i) (suc j) v d h = get_or-set_other xs i j v d (λ e. h (ap suc e))

-- The address of an open place is not that of a place of another client.
address-Spares :
    (s : Server) (mac : List ℕ) (now i idx : ℕ) (l : Lease) (kind : ℕ)
    → from_be s.cfg.pool_start + length s.leases ≤ 2 ^ 32
    → IsOpen s mac now i
    → Holds s idx l
    → IsOthers mac now l
    → Spares s.cfg idx
        (some (record { msg_type = kind; yiaddr = to_be (from_be s.cfg.pool_start + i) }))
address-Spares s mac now i idx l kind fits opens holds other =
    let start = from_be s.cfg.pool_start in
    let read = from_be-to_be (start + i) (omega (arith, opens.0)) in
    inr (λ same. open_other s mac now i idx l opens holds other (omega (arith, sym read ∙ same)))

offer-IsFair :
    (s : Server) (mac : List ℕ) (now : ℕ) (place : Option ℕ)
    → FitsAt s now
    → AllOpen s mac now place
    → Returns (IsFair s mac now) (offer s place)
offer-IsFair s mac now none fits h = (refl, refl, λ idx l holds other. (holds, tt))
offer-IsFair s mac now (some i) fits h = rw (ip_for_lem s i (omega (arith, h.0, fits.0))) (
  refl,
  refl,
  λ idx l holds other. (holds, address-Spares s mac now i idx l 2 fits.0 h holds other),
)

-- A place that is written leaves the others.
written-Holds :
    (s : Server) (mac : List ℕ) (now i idx : ℕ) (l : Lease) (v : Option Lease)
    → IsOpen s mac now i
    → Holds s idx l
    → IsOthers mac now l
    → get_or (set s.leases i v) idx none ≡ some l
written-Holds s mac now i idx l v opens holds other =
    get_or-set_other s.leases i idx v none (open_other s mac now i idx l opens holds other) ∙ holds

pub commit_lem :
    (s : Server) (i : ℕ) (mac : List ℕ) (now : ℕ)
    → now + s.cfg.lease_secs < 2 ^ 64
    → commit s i mac now
      ≡ ok (record s {
        leases = set s.leases i (some (record { mac = mac; expires_at = now + s.cfg.lease_secs }));
      })
unfolding commit
commit_lem s i mac now h = rw (lt→ltb (now + s.cfg.lease_secs) (2 ^ 64) h)

acknowledge-IsFair :
    (s : Server) (mac : List ℕ) (now : ℕ) (place : Option ℕ)
    → FitsAt s now
    → AllOpen s mac now place
    → Returns (IsFair s mac now) (acknowledge place s mac now)
acknowledge-IsFair s mac now none fits h = (refl, refl, λ idx l holds other. (holds, inl refl))
acknowledge-IsFair s mac now (some i) fits h =
    let lease = some (record { mac = mac; expires_at = now + s.cfg.lease_secs }) in
    let s' = record s { leases = set s.leases i lease } in
    rw (commit_lem s i mac now fits.1, ip_for_lem s' i (omega (arith, h.0, fits.0)))
      (
        refl,
        length-set s.leases i lease,
        λ idx l holds other. (
          written-Holds s mac now i idx l lease h holds other,
          address-Spares s mac now i idx l 5 fits.0 h holds other,
        ),
      )

drop_lease-IsFair :
    (s : Server) (mac : List ℕ) (now : ℕ) (place : Option ℕ)
    → AllOpen s mac now place
    → IsFair s mac now (none, drop_lease place s)
drop_lease-IsFair s mac now none h = (refl, refl, λ idx l holds other. (holds, tt))
drop_lease-IsFair s mac now (some i) h = (
  refl,
  length-set s.leases i none,
  λ idx l holds other. (written-Holds s mac now i idx l none h holds other, tt),
)

on_discover-IsFair :
    (s : Server) (req : Request) (now : ℕ)
    → FitsAt s now
    → Returns (IsFair s req.chaddr now) (on_discover s req now)
unfolding on_discover
on_discover-IsFair s req now fits =
    offer-IsFair s req.chaddr now (allocate s req.chaddr now req.requested_ip) fits
      (allocate-AllOpen s req.chaddr now req.requested_ip)

-- A request that changes nothing.
silent-IsFair : (s : Server) (mac : List ℕ) (now : ℕ) → IsFair s mac now (none, s)
silent-IsFair s mac now = (refl, refl, λ idx l holds other. (holds, tt))

on_request-IsFair :
    (s : Server) (req : Request) (now : ℕ)
    → FitsAt s now
    → Returns (IsFair s req.chaddr now) (on_request s req now)
unfolding on_request
on_request-IsFair s req now fits = elim (Bool-cases (is_for_other s req.server_id)) [
  | inl other ↦ rw other (silent-IsFair s req.chaddr now)
  | inr ours ↦
      let want = wanted req in
      rw ours (
        acknowledge-IsFair s req.chaddr now (place_at (preferred_idx s want) want s req.chaddr now)
          fits (place_at-AllOpen s req.chaddr now want))
]

-- Whatever the request.
pub answer-IsFair :
    (s : Server) (req : Request) (now : ℕ)
    → FitsAt s now
    → Returns (IsFair s req.chaddr now) (answer s req now)
unfolding answer on_release
answer-IsFair s req now fits = elim (Bool-cases (req.msg_type == 1)) [
  | inl discover ↦ rw discover (on_discover-IsFair s req now fits)
  | inr not_discover ↦ elim (Bool-cases (req.msg_type == 3)) [
    | inl request ↦ rw (not_discover, request) (on_request-IsFair s req now fits)
    | inr not_request ↦ elim (Bool-cases (req.msg_type == 7)) [
      | inl release ↦
          rw (not_discover, not_request, release)
            (drop_lease-IsFair s req.chaddr now (find_lease s req.chaddr now)
              (find_lease-AllOpen s req.chaddr now))
      | inr other ↦ rw (not_discover, not_request, other) (silent-IsFair s req.chaddr now)
    ]
  ]
]
