-- ===== src/Dhcp/Exclusive.antt =====
-- An address that is leased to one client is not given to another.
use microfips.Base.{
  ℕ, ◌+◌, ◌^◌, ◌≡◌, ◌≤◌, ◌<◌, List, [], ◌∷◌, Option, none, some, false, length, arith, refl, sym,
  subst, ◌∙◌,
}
use microfips.Bytes.{eq_bytes}
use microfips.Exec.{Exec, ok, err, panic, Absent, IsNotPanic}
use microfips.Exec.Post.{Returns, Returns-bind, returned}
use microfips.Dhcp.Request.{Request, parse_request}
use microfips.Dhcp.Leases.{Server, Config, Lease, from_be}
use microfips.Dhcp.Server.{Answer, answer, decide_parsed, with_request, decide, decide_all}
use microfips.Dhcp.Total.{parse_request-IsNotPanic}
use microfips.Dhcp.Fair.{Holds, Spares, IsFair, FitsAt, answer-IsFair}

abbrev pub IsNotFrom : (mac : List ℕ) → Exec Absent Request → Type 0
IsNotFrom mac (ok req) = eq_bytes mac req.chaddr ≡ false
IsNotFrom mac (err e) = Unit
IsNotFrom mac panic = Unit

-- Packets that do not come from the client of this lease, while it is live.
abbrev pub AreOthers : Config → Lease → List (List ℕ × ℕ) → Type 0
AreOthers cfg l [] = Unit
AreOthers cfg l ((packet, now) ∷ rest) =
    ((now < l.expires_at)
      × (now + cfg.lease_secs < 2 ^ 64)
      × IsNotFrom l.mac (parse_request packet))
    × AreOthers cfg l rest

abbrev answer_of : Option (Request × Answer) → Option Answer
answer_of none = none
answer_of (some (req, a)) = some a

-- None of the answers gives the address of the place `idx` away.
abbrev pub AllSpare : Config → ℕ → List (Option (Request × Answer)) → Type 0
AllSpare cfg idx [] = Unit
AllSpare cfg idx (a ∷ rest) = Spares cfg idx (answer_of a) × AllSpare cfg idx rest

-- The pool and this lease are as they were.
abbrev pub Keeps : Server → ℕ → Lease → Server → Type 0
Keeps s idx l s' = (s'.cfg ≡ s.cfg) × (length s'.leases ≡ length s.leases) × Holds s' idx l

with_request-Spares :
    (cfg : Config) (idx : ℕ) (req : Request) (a : Option Answer)
    → Spares cfg idx a
    → Spares cfg idx (answer_of (with_request req a))
with_request-Spares cfg idx req none h = tt
with_request-Spares cfg idx req (some a) h = h

abbrev One : Server → ℕ → Lease → Option (Request × Answer) × Server → Type 0
One s idx l (a, s') = Spares s.cfg idx (answer_of a) × Keeps s idx l s'

decide_parsed-One :
    (s : Server) (idx now : ℕ) (l : Lease) (parsed : Exec Absent Request)
    → IsNotPanic parsed
    → FitsAt s now
    → Holds s idx l
    → now < l.expires_at
    → IsNotFrom l.mac parsed
    → Returns (One s idx l) (decide_parsed parsed s now)
decide_parsed-One s idx now l (ok req) fine fits holds live other =
    Returns-bind (IsFair s req.chaddr now) (One s idx l) (answer s req now) _
      (answer-IsFair s req now fits)
      (λ decided fair.
        let (cfg, size, keeps) = fair in
        let (holds', spares) = keeps idx l holds (other, live) in
        (with_request-Spares s.cfg idx req decided.0 spares, (cfg, size, holds')))
decide_parsed-One s idx now l (err e) fine fits holds live other = (tt, (refl, refl, holds))
decide_parsed-One s idx now l panic fine fits holds live other = absurd fine

decide_all_step :
    (s : Server) (packet : List ℕ) (now : ℕ) (rest : List (List ℕ × ℕ))
    {one : Option (Request × Answer) × Server} {more : List (Option (Request × Answer)) × Server}
    → decide s packet now ≡ ok one
    → decide_all one.1 rest ≡ ok more
    → decide_all s ((packet, now) ∷ rest) ≡ ok (one.0 ∷ more.0, more.1)
unfolding decide_all
decide_all_step s packet now rest e f = rw (e, f)

-- A place of the table that holds a lease of some client, whatever packets other clients send while
-- that lease is live, where the pool ends below 2 ^ 32 and no lease would end past 2 ^ 64: the server
-- does not panic, the place still holds that lease, and each of its answers is a NAK or names
-- another address than that of the place.
pub lease_is_exclusive :
    (s : Server) (idx : ℕ) (l : Lease) (packets : List (List ℕ × ℕ))
    → from_be s.cfg.pool_start + length s.leases ≤ 2 ^ 32
    → Holds s idx l
    → AreOthers s.cfg l packets
    → (answers : List (Option (Request × Answer))) × (s' : Server) × (decide_all s packets
        ≡ ok (answers, s'))
      × AllSpare s.cfg idx answers
      × Keeps s idx l s'
unfolding decide_all decide
lease_is_exclusive s idx l [] fits holds others = ([], s, refl, tt, (refl, refl, holds))
lease_is_exclusive s idx l ((packet, now) ∷ rest) fits holds others =
    let ((live, time, other), others') = others in
    let (one, decided, (spares, (cfg, size, holds'))) =
      returned (One s idx l) (decide_parsed (parse_request packet) s now) (
        decide_parsed-One s idx now l (parse_request packet) (parse_request-IsNotPanic packet)
          (fits, time) holds live other) in
    let s' = one.1 in
    let (answers, s'', more, spare, (cfg', size', holds'')) =
      lease_is_exclusive s' idx l rest
        (subst (λ c. from_be c.pool_start + length s'.leases ≤ 2 ^ 32) (sym cfg)
          (omega (arith, size)))
        holds' (subst (λ c. AreOthers c l rest) (sym cfg) others') in
    (
      one.0 ∷ answers,
      s'',
      decide_all_step s packet now rest decided more,
      (spares, subst (λ c. AllSpare c idx answers) cfg spare),
      (cfg' ∙ cfg, size' ∙ size, holds''),
    )
