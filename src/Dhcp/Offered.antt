-- ===== src/Dhcp/Offered.antt =====
-- The exchange of a client that takes the address it is offered.
use microfips.Base.{
  ℕ, zero, suc, ◌+◌, ◌-◌, ◌^◌, ◌≡◌, ◌≤◌, ◌<◌, lt→ltb, le→leb, ltb, Bool-cases, inl, inr, sym, ap,
  ◌∙◌, List, [], ◌∷◌, Option, none, some, true, false, length, get_or, set, arith, refl, subst,
}
use microfips.Exec.{ok}
use microfips.Dhcp.Request.{Request}
use microfips.Dhcp.Leases.{Server, Lease, from_be, idx_for_ip, allocate, lease_at, ip_for}
use microfips.Dhcp.Server.{
  Answer, answer, offer, on_discover, on_request, may_take, is_for_other, decide_all, msg_discover,
  msg_request, msg_offer, msg_ack,
}
use microfips.Dhcp.Slots.{AllOpen, IsOpen, allocate-AllOpen}
use microfips.Dhcp.Between.{address, WhenOk, AreNotTaken, AllStay, decide_all-AllStay}
use microfips.Dhcp.Fair.{Holds, from_be-to_be, ip_for_lem, commit_lem}

get_or-set_self {ℓ} :
    {A : Type ℓ} (xs : List A) (i : ℕ) (v d : A) → i < length xs → get_or (set xs i v) i d ≡ v
get_or-set_self [] i v d h = absurd (omega arith)
get_or-set_self (x ∷ xs) zero v d h = refl
get_or-set_self (x ∷ xs) (suc i) v d h = get_or-set_self xs i v d (omega arith)

-- What a client may take it may take later.
may_take_later :
    (mac : List ℕ) (now later : ℕ) (l : Option Lease)
    → now ≤ later
    → may_take mac now l ≡ true
    → may_take mac later l ≡ true
may_take_later mac now later none h may = refl
may_take_later mac now later (some l) h may = ground arith

idx_for_address :
    (s : Server) (idx : ℕ)
    → from_be s.cfg.pool_start + length s.leases ≤ 2 ^ 32
    → idx < length s.leases
    → idx_for_ip s (address s.cfg idx) ≡ some idx
unfolding idx_for_ip
idx_for_address s idx fits inside =
    let start = from_be s.cfg.pool_start in
    let read = from_be-to_be (start + idx) (omega arith) in
    let place : start + idx - start ≡ idx = omega arith in
    rw (read, le→leb start (start + idx) (omega arith), place, lt→ltb idx (length s.leases) inside)

-- What an answer that is an offer says: it names the address of a place that is open to the client,
-- and the server is as it was.
abbrev Offers : Server → (mac : List ℕ) (now : ℕ) → Option Answer × Server → Type 0
Offers s mac now (none, s1) = Unit
Offers s mac now (some a, s1) =
    (s1 ≡ s)
    × (a.msg_type ≡ msg_offer)
    × ((idx : ℕ) × (a.yiaddr ≡ address s.cfg idx) × IsOpen s mac now idx)

offer-Offers :
    (s : Server) (mac : List ℕ) (now : ℕ) (place : Option ℕ)
    → AllOpen s mac now place
    → WhenOk (Offers s mac now) (offer s place)
unfolding ip_for
offer-Offers s mac now none h = tt
offer-Offers s mac now (some i) h =
    elim (Bool-cases (ltb (from_be s.cfg.pool_start + i) (2 ^ 32))) [
      | inl f ↦ rw f (refl, refl, (i, refl, h))
      | inr f ↦ rw f tt
    ]

discover-Offers :
    (s : Server) (req : Request) (now : ℕ)
    → req.msg_type ≡ msg_discover
    → WhenOk (Offers s req.chaddr now) (answer s req now)
unfolding answer on_discover
discover-Offers s req now kind = rw kind (
    offer-Offers s req.chaddr now (allocate s req.chaddr now req.requested_ip)
      (allocate-AllOpen s req.chaddr now req.requested_ip))

module _ (s : Server) (idx : ℕ) (fits : from_be s.cfg.pool_start + length s.leases ≤ 2 ^ 32) where
  leased : (mac : List ℕ) (now : ℕ) → Server
  leased mac now = record s {
    leases = set s.leases idx (some (record { mac = mac; expires_at = now + s.cfg.lease_secs }));
  }

  request_acknowledged :
      (req : Request) (now : ℕ)
      → req.msg_type ≡ msg_request
      → is_for_other s req.server_id ≡ false
      → req.requested_ip ≡ some (address s.cfg idx)
      → IsOpen s req.chaddr now idx
      → now + s.cfg.lease_secs < 2 ^ 64
      → answer s req now
        ≡ ok (
          some (record { msg_type = msg_ack; yiaddr = address s.cfg idx }),
          leased req.chaddr now,
        )
  unfolding answer on_request leased
  request_acknowledged req now kind ours want (inside, may) time = rw (
    kind,
    ours,
    want,
    idx_for_address s idx fits inside,
    may,
    commit_lem s idx req.chaddr now time,
    ip_for_lem (leased req.chaddr now) idx (omega arith),
  )

  request_leased :
      (req : Request) (now : ℕ)
      → req.msg_type ≡ msg_request
      → is_for_other s req.server_id ≡ false
      → req.requested_ip ≡ some (address s.cfg idx)
      → IsOpen s req.chaddr now idx
      → now + s.cfg.lease_secs < 2 ^ 64
      → (s' : Server) × (answer s req now
          ≡ ok (some (record { msg_type = msg_ack; yiaddr = address s.cfg idx }), s'))
        × Holds s' idx (record { mac = req.chaddr; expires_at = now + s.cfg.lease_secs })
  unfolding leased
  request_leased req now kind ours want (inside, may) time = (
    leased req.chaddr now,
    request_acknowledged req now kind ours want (inside, may) time,
    get_or-set_self s.leases idx
        (some (record { mac = req.chaddr; expires_at = now + s.cfg.lease_secs })) none inside,
  )

-- A client that asks a server for an offer and gets one, in a pool that ends below 2 ^ 32; then any
-- packets, none of whose answers acknowledges the offered address to another client: the request of
-- the client for that address, at a time not before that of the offer, not meant for another server,
-- and with a lease that ends below 2 ^ 64, is acknowledged with it, and the place of the table whose
-- address it is holds the client's lease, which begins at the time of the request.
pub offered_address_is_leased :
    (s s1 s2 : Server) (discover request : Request) (now later : ℕ) (offered : Answer)
    (between : List (List ℕ × ℕ)) (answers : List (Option (Request × Answer)))
    → from_be s.cfg.pool_start + length s.leases ≤ 2 ^ 32
    → discover.msg_type ≡ msg_discover
    → answer s discover now ≡ ok (some offered, s1)
    → decide_all s1 between ≡ ok (answers, s2)
    → AreNotTaken discover.chaddr offered.yiaddr answers
    → request.msg_type ≡ msg_request
    → request.chaddr ≡ discover.chaddr
    → is_for_other s2 request.server_id ≡ false
    → request.requested_ip ≡ some offered.yiaddr
    → now ≤ later
    → later + s2.cfg.lease_secs < 2 ^ 64
    → (idx : ℕ) × (s' : Server) × (offered.yiaddr ≡ address s.cfg idx)
      × (answer s2 request later
          ≡ ok (some (record { msg_type = msg_ack; yiaddr = offered.yiaddr }), s'))
      × Holds s' idx (record { mac = request.chaddr; expires_at = later + s2.cfg.lease_secs })
offered_address_is_leased s s1 s2 discover request now later offered between answers fits asks
      offers went free takes same ours want after time =
    let (back, kind, (idx, place, open_then)) =
      subst (WhenOk (Offers s discover.chaddr now)) offers (discover-Offers s discover now asks) in
    let (cfg, size, stays) =
      subst (WhenOk (AllStay discover.chaddr now idx s1)) went
        (decide_all-AllStay discover.chaddr now idx s1 between) in
    let cfg2 : s2.cfg ≡ s.cfg = cfg ∙ ap (λ t. t.cfg) back in
    let size2 : length s2.leases ≡ length s.leases = size ∙ ap (λ t. length t.leases) back in
    let there : offered.yiaddr ≡ address s2.cfg idx = place ∙ ap (λ c. address c idx) (sym cfg2) in
    let first : offered.yiaddr ≡ address s1.cfg idx =
      place ∙ ap (λ t. address t.cfg idx) (sym back) in
    let (inside, may) =
      stays (subst (λ t. IsOpen t discover.chaddr now idx) (sym back) open_then)
        (subst (λ a. AreNotTaken discover.chaddr a answers) first free) in
    let may' : may_take request.chaddr later (lease_at s2 idx) ≡ true =
      rw same (may_take_later discover.chaddr now later (lease_at s2 idx) after may) in
    let fits2 : from_be s2.cfg.pool_start + length s2.leases ≤ 2 ^ 32 =
      subst (λ c. from_be c.pool_start + length s2.leases ≤ 2 ^ 32) (sym cfg2)
        (omega (arith, fits, size2)) in
    let (s', acked, holds) =
      request_leased s2 idx fits2 request later takes ours (want ∙ ap some there) (inside, may')
        time in
    (
      idx,
      s',
      place,
      subst
          (λ a. answer s2 request later ≡ ok (some (record { msg_type = msg_ack; yiaddr = a }), s'))
          (sym there) acked,
      holds,
    )
