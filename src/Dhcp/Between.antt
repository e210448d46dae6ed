-- ===== src/Dhcp/Between.antt =====
-- What a place of the table is after the packets that arrive between an offer and the request for it.
use microfips.Base.{
  ℕ, zero, suc, ◌+◌, ◌^◌, ◌≡◌, ◌==◌, ◌⊎◌, ltb, List, [], ◌∷◌, Option, none, some, true, length,
  length-set, get_or, set, refl, sym, ap, subst, ◌∙◌, inl, inr, Bool-cases,
}
use microfips.Bytes.{eq_bytes}
use microfips.Exec.{Exec, ok, err, panic, Absent, ◌>>=◌}
use microfips.Dhcp.Request.{Request, parse_request}
use microfips.Dhcp.Leases.{
  Config, Server, Lease, from_be, to_be, ip_for, commit, allocate, find_lease, preferred_idx,
}
use microfips.Dhcp.Server.{
  Answer, msg_ack, offer, on_discover, on_request, on_release, acknowledge, place_at, drop_lease,
  answer, wanted, is_for_other, may_take, decide_parsed, with_request, decide, decide_all,
}
use microfips.Dhcp.Slots.{IsOpen}

-- The address of a place.
abbrev pub address : Config → ℕ → List ℕ
address cfg idx = to_be (from_be cfg.pool_start + idx)

-- A value that a call returns satisfies `P`, where it returns one.
abbrev pub WhenOk {ℓ κ} : {E : Type ℓ} {A : Type κ} → (A → Type 0) → Exec E A → Type 0
WhenOk P (ok a) = P a
WhenOk P (err e) = Unit
WhenOk P panic = Unit

WhenOk-bind {ℓ κ μ} :
    {E : Type ℓ} {A : Type κ} {B : Type μ} (P : A → Type 0) (Q : B → Type 0) (m : Exec E A)
    (f : A → Exec E B)
    → WhenOk P m
    → ((a : A) → P a → WhenOk Q (f a))
    → WhenOk Q (m >>= f)
WhenOk-bind P Q (ok a) f h k = k a h
WhenOk-bind P Q (err e) f h k = tt
WhenOk-bind P Q panic f h k = tt

-- An answer to `req` that does not acknowledge this address to another client than `mac`.
abbrev pub IsNotTaken : (mac address : List ℕ) → Request → Option Answer → Type 0
IsNotTaken mac address req none = Unit
IsNotTaken mac address req (some a) =
    (eq_bytes req.chaddr mac ≡ true) ⊎ (a.msg_type ≡ msg_ack → a.yiaddr ≡ address → ⊥)

abbrev pub AreNotTaken : (mac address : List ℕ) → List (Option (Request × Answer)) → Type 0
AreNotTaken mac address [] = Unit
AreNotTaken mac address (none ∷ rest) = AreNotTaken mac address rest
AreNotTaken mac address (some (req, a) ∷ rest) =
    IsNotTaken mac address req (some a) × AreNotTaken mac address rest

get_or-set_cases {ℓ} :
    {A : Type ℓ} (xs : List A) (i j : ℕ) (v d : A)
    → (get_or (set xs i v) j d ≡ get_or xs j d) ⊎ ((i ≡ j) × (get_or (set xs i v) j d ≡ v))
get_or-set_cases [] i j v d = inl refl
get_or-set_cases (x ∷ xs) zero zero v d = inr (refl, refl)
get_or-set_cases (x ∷ xs) zero (suc j) v d = inl refl
get_or-set_cases (x ∷ xs) (suc i) zero v d = inl refl
get_or-set_cases (x ∷ xs) (suc i) (suc j) v d = elim (get_or-set_cases xs i j v d) [
  | inl same ↦ inl same
  | inr (e, new) ↦ inr (ap suc e, new)
]

-- A place `idx` that is open to the client `mac` at the time `now`.
module _ (mac : List ℕ) (now idx : ℕ) where
  -- The place stays open, if the answer does not give its address to another client.
  abbrev Stays : Server → Request → Option Answer × Server → Type 0
  Stays s req (a, s') =
      (s'.cfg ≡ s.cfg)
      × (length s'.leases ≡ length s.leases)
      × (IsOpen s mac now idx → IsNotTaken mac (address s.cfg idx) req a → IsOpen s' mac now idx)

  silent-Stays : (s : Server) (req : Request) → Stays s req (none, s)
  silent-Stays s req = (refl, refl, λ held free. held)

  offer-Stays :
      (s : Server) (req : Request) (place : Option ℕ) → WhenOk (Stays s req) (offer s place)
  unfolding ip_for
  offer-Stays s req none = silent-Stays s req
  offer-Stays s req (some i) = elim (Bool-cases (ltb (from_be s.cfg.pool_start + i) (2 ^ 32))) [
    | inl f ↦ rw f (refl, refl, λ held free. held)
    | inr f ↦ rw f tt
  ]

  -- The lease of a place that is written.
  abbrev Written : Server → ℕ → Option Lease → Server
  Written s i v = record s { leases = set s.leases i v }

  written-IsOpen :
      (s : Server) (i : ℕ) (v : Option Lease)
      → (i ≡ idx → may_take mac now v ≡ true)
      → IsOpen s mac now idx
      → IsOpen (Written s i v) mac now idx
  written-IsOpen s i v lets (inside, may) = elim (get_or-set_cases s.leases i idx v none) [
    | inl same ↦ (rw (length-set s.leases i v) inside, ap (may_take mac now) same ∙ may)
    | inr (e, new) ↦ (rw (length-set s.leases i v) inside, ap (may_take mac now) new ∙ lets e)
  ]

  -- The lease that an acknowledgement of the place `i` writes.
  taken_lem :
      (s : Server) (req : Request) (i expires : ℕ)
      → IsNotTaken mac
          (address s.cfg idx)
          req
          (some (record { msg_type = msg_ack; yiaddr = address s.cfg i }))
      → i ≡ idx
      → may_take mac now (some (record { mac = req.chaddr; expires_at = expires })) ≡ true
  taken_lem s req i expires (inl own) e = rw own refl
  taken_lem s req i expires (inr free) e = absurd (free refl (ap (address s.cfg) e))

  acknowledged-Stays :
      (s : Server) (req : Request) (i expires : ℕ)
      → Stays s req (
        some (record { msg_type = msg_ack; yiaddr = address s.cfg i }),
        Written s i (some (record { mac = req.chaddr; expires_at = expires })),
      )
  acknowledged-Stays s req i expires =
      let lease = some (record { mac = req.chaddr; expires_at = expires }) in
      (
        refl,
        length-set s.leases i lease,
        λ held free. written-IsOpen s i lease (taken_lem s req i expires free) held,
      )

  acknowledge-Stays :
      (s : Server) (req : Request) (time : ℕ) (place : Option ℕ)
      → WhenOk (Stays s req) (acknowledge place s req.chaddr time)
  unfolding ip_for commit
  acknowledge-Stays s req time none = (refl, refl, λ held free. held)
  acknowledge-Stays s req time (some i) =
      let expires = time + s.cfg.lease_secs in
      elim (Bool-cases (ltb expires (2 ^ 64))) [
        | inr f ↦ rw f tt
        | inl f ↦ elim (Bool-cases (ltb (from_be s.cfg.pool_start + i) (2 ^ 32))) [
          | inr g ↦ rw (f, g) tt
          | inl g ↦ rw (f, g) (acknowledged-Stays s req i expires)
        ]
      ]

  drop_lease-Stays :
      (s : Server) (req : Request) (place : Option ℕ) → Stays s req (none, drop_lease place s)
  drop_lease-Stays s req none = silent-Stays s req
  drop_lease-Stays s req (some i) =
      (refl, length-set s.leases i none, λ held free. written-IsOpen s i none (λ e. refl) held)

  on_request-Stays :
      (s : Server) (req : Request) (time : ℕ) → WhenOk (Stays s req) (on_request s req time)
  unfolding on_request
  on_request-Stays s req time = elim (Bool-cases (is_for_other s req.server_id)) [
    | inl other ↦ rw other (silent-Stays s req)
    | inr ours ↦
        let want = wanted req in
        rw ours
          (acknowledge-Stays s req time (place_at (preferred_idx s want) want s req.chaddr time))
  ]

  answer-Stays : (s : Server) (req : Request) (time : ℕ) → WhenOk (Stays s req) (answer s req time)
  unfolding answer on_release on_discover
  answer-Stays s req time = elim (Bool-cases (req.msg_type == 1)) [
    | inl discover ↦ rw discover (offer-Stays s req (allocate s req.chaddr time req.requested_ip))
    | inr not_discover ↦ elim (Bool-cases (req.msg_type == 3)) [
      | inl request ↦ rw (not_discover, request) (on_request-Stays s req time)
      | inr not_request ↦ elim (Bool-cases (req.msg_type == 7)) [
        | inl release ↦
            rw (not_discover, not_request, release)
              (drop_lease-Stays s req (find_lease s req.chaddr time))
        | inr other ↦ rw (not_discover, not_request, other) (silent-Stays s req)
      ]
    ]
  ]

  -- Packets that arrive one after the other.
  abbrev pub AllStay : Server → List (Option (Request × Answer)) × Server → Type 0
  AllStay s (answers, s') =
      (s'.cfg ≡ s.cfg)
      × (length s'.leases ≡ length s.leases)
      × (IsOpen s mac now idx → AreNotTaken mac (address s.cfg idx) answers → IsOpen s' mac now idx)

  one-AllStay :
      (s s' : Server) (req : Request) (a : Option Answer)
      → Stays s req (a, s')
      → AllStay s (with_request req a ∷ [], s')
  one-AllStay s s' req none h = h
  one-AllStay s s' req (some a) (cfg, size, stays) = (cfg, size, λ o free. stays o free.0)

  decide_parsed-AllStay :
      (s : Server) (parsed : Exec Absent Request) (time : ℕ)
      → WhenOk (λ one. AllStay s (one.0 ∷ [], one.1)) (decide_parsed parsed s time)
  decide_parsed-AllStay s (ok req) time =
      WhenOk-bind (Stays s req) (λ one. AllStay s (one.0 ∷ [], one.1)) (answer s req time) _
        (answer-Stays s req time) (λ decided h. one-AllStay s decided.1 req decided.0 h)
  decide_parsed-AllStay s (err e) time = (refl, refl, λ held free. held)
  decide_parsed-AllStay s panic time = tt

  joined :
      (s s' s'' : Server) (a : Option (Request × Answer))
      (answers : List (Option (Request × Answer)))
      → AllStay s (a ∷ [], s')
      → AllStay s' (answers, s'')
      → AllStay s (a ∷ answers, s'')
  joined s s' s'' none answers (cfg, size, stays) (cfg', size', stays') = (
    cfg' ∙ cfg,
    size' ∙ size,
    λ o free.
        stays' (stays o tt) (subst (λ c. AreNotTaken mac (address c idx) answers) (sym cfg) free),
  )
  joined s s' s'' (some (req, a)) answers (cfg, size, stays) (cfg', size', stays') = (
    cfg' ∙ cfg,
    size' ∙ size,
    λ o free.
        stays' (stays o (free.0, tt))
          (subst (λ c. AreNotTaken mac (address c idx) answers) (sym cfg) free.1),
  )

  pub decide_all-AllStay :
      (s : Server) (packets : List (List ℕ × ℕ)) → WhenOk (AllStay s) (decide_all s packets)
  unfolding decide_all decide
  decide_all-AllStay s [] = (refl, refl, λ held free. held)
  decide_all-AllStay s ((packet, time) ∷ rest) =
      WhenOk-bind (λ one. AllStay s (one.0 ∷ [], one.1)) (AllStay s)
        (decide_parsed (parse_request packet) s time) _
        (decide_parsed-AllStay s (parse_request packet) time)
        (λ one first.
          WhenOk-bind (AllStay one.1) (AllStay s) (decide_all one.1 rest) _
            (decide_all-AllStay one.1 rest)
            (λ more later. joined s one.1 more.1 one.0 more.0 first later))
