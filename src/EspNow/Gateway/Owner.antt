-- ===== src/EspNow/Gateway/Owner.antt =====
-- The owner of the slot is served whatever other stations send.
use microfips.Base.{
  ℕ, ◌-◌, ◌≤◌, ◌≡◌, List, [], ◌∷◌, ◌++◌, Option, none, some, true, false, if◌then◌else◌, le→leb,
  refl, sym, ap, ◌∙◌, Bool-cases, inl, inr, length,
}
use microfips.Bytes.{eq_bytes, eq_bytes_self, eq_bytes_sound}
use microfips.Exec.{Exec, ok, err, panic, Absent, ◌>>=◌}
use microfips.EspNow.Frag.{
  Reassembler, SrcReassembler, note_src, same_src, push, push_from, receive, completed,
  transmit_all, max_message,
}
use microfips.EspNow.RoundTrip.{messages_arrive, AreSendable}
use microfips.EspNow.Peer.{
  PeerSlotAction, Manager, observe, owned_by, publish_current, apply_slot_action, active_hold_ms,
}
use microfips.EspNow.Gateway.{Received, Gateway, on_action, serve, on_frame, run}

-- The payloads of one station.
abbrev pub payloads_of : (owner : List ℕ) (frames : List Received) → List (List ℕ)
payloads_of owner [] = []
payloads_of owner (frame ∷ rest) =
    if eq_bytes owner frame.src
    then frame.payload ∷ payloads_of owner rest
    else payloads_of owner rest

-- When another station sends, the owner was heard at most the hold time before.
abbrev pub IsHeld : (owner : List ℕ) (last : ℕ) (frames : List Received) → Type 0
IsHeld owner last [] = Unit
IsHeld owner last (frame ∷ rest) =
    if eq_bytes owner frame.src
    then IsHeld owner frame.now rest
    else (frame.now - last ≤ active_hold_ms) × IsHeld owner last rest

bind_ok :
    {A B : Type 0} (m : Exec Absent A) (f : A → Exec Absent B) (b : B)
    → (m >>= f) ≡ ok b
    → (a : A) × (m ≡ ok a) × (f a ≡ ok b)
bind_ok (ok a) f b h = (a, refl, h)
bind_ok (err e) f b h = cc
bind_ok panic f b h = cc

receive_first :
    (r r' : Reassembler) (p : List ℕ) (ps ms : List (List ℕ))
    → receive r (p ∷ ps) ≡ ok (ms, r')
    → (one : Option (List ℕ) × Reassembler) × (more : List (List ℕ) × Reassembler) × (push r p
        ≡ ok one)
      × (receive one.1 ps ≡ ok more)
      × (completed one.0 ++ more.0 ≡ ms)
unfolding receive
receive_first r r' p ps ms e =
    let (one, pushed, after) = bind_ok (push r p) _ (ms, r') e in
    let (more, got, joined) = bind_ok (receive one.1 ps) _ (ms, r') after in
    (one, more, pushed, got, cc)

observe_owner :
    (owner src : List ℕ) (last now : ℕ)
    → eq_bytes owner src ≡ true
    → observe (owned_by owner last) src now ≡ (PeerSlotAction.keep, owned_by owner now)
unfolding observe
observe_owner owner src last now same = rw same

observe_foreign :
    (owner src : List ℕ) (last now : ℕ)
    → eq_bytes owner src ≡ false
    → now - last ≤ active_hold_ms
    → observe (owned_by owner last) src now ≡ (PeerSlotAction.ignore, owned_by owner last)
unfolding observe
observe_foreign owner src last now other held = rw (other, le→leb (now - last) active_hold_ms held)

note_src_same :
    (r : Reassembler) (src : List ℕ)
    → note_src (record { reassembler = r; src = some src }) src
      ≡ record { reassembler = r; src = some src }
note_src_same r src = rw (eq_bytes_self src)

note_src-src :
    (s : SrcReassembler) (known : Option (List ℕ)) (src : List ℕ)
    → s.src ≡ known
    → (note_src s src).src ≡ some src
note_src-src s none src e = rw e refl
note_src-src s (some known) src e = elim (Bool-cases (eq_bytes known src)) [
  | inl same ↦ rw (e, same) (ap some (eq_bytes_sound known src same))
  | inr other ↦ rw (e, other) refl
]

note_src-buf :
    (s : SrcReassembler) (src : List ℕ) → (note_src s src).reassembler.buf ≡ s.reassembler.buf
note_src-buf s src = elim (Bool-cases (same_src s.src src)) [
  | inl same ↦ rw same refl
  | inr other ↦ rw other refl
]

module _ (manager : Manager) (owner : List ℕ) where
  -- The messages handed on, whatever becomes of the gateway.
  abbrev HandsOn : Gateway manager → List Received → List (List ℕ) → Type 0
  HandsOn g frames ms = (g' : Gateway manager) × (run manager g frames ≡ ok (ms, g'))

  on_foreign :
      (g : Gateway manager) (last : ℕ) (frame : Received)
      → g.slot ≡ owned_by owner last
      → eq_bytes owner frame.src ≡ false
      → frame.now - last ≤ active_hold_ms
      → on_frame manager g frame ≡ ok (none, record g { slot = owned_by owner last })
  unfolding on_frame on_action
  on_foreign g last frame e other held =
      rw (e, observe_foreign owner frame.src last frame.now other held)

  on_owner :
      (g : Gateway manager) (last : ℕ) (frame : Received) (one : Option (List ℕ) × Reassembler)
      → g.slot ≡ owned_by owner last
      → eq_bytes owner frame.src ≡ true
      → push (note_src g.reassembler owner).reassembler frame.payload ≡ ok one
      → (g' : Gateway manager) × (on_frame manager g frame ≡ ok (one.0, g'))
        × (g'.slot ≡ owned_by owner frame.now)
        × (g'.reassembler ≡ record { reassembler = one.1; src = some owner })
  unfolding on_frame on_action serve push_from
  on_owner g last frame one e same pushed =
      let equal = eq_bytes_sound owner frame.src same in
      let slot = owned_by owner frame.now in
      (
        record {
          slot = slot;
          reassembler = record { reassembler = one.1; src = some owner };
          peer_mac = publish_current slot;
          table = apply_slot_action manager PeerSlotAction.keep g.table;
        },
        rw (
          e,
          observe_owner owner frame.src last frame.now same,
          sym equal,
          pushed,
          note_src-src g.reassembler g.reassembler.src owner refl,
        ),
        refl,
        refl,
      )

  heard :
      (frames : List Received) (g : Gateway manager) (last : ℕ) (ms : List (List ℕ))
      (r' : Reassembler)
      → g.slot ≡ owned_by owner last
      → IsHeld owner last frames
      → receive (note_src g.reassembler owner).reassembler (payloads_of owner frames) ≡ ok (ms, r')
      → HandsOn g frames ms
  unfolding run receive
  heard [] g last ms r' e held got = (g, cc)
  heard (frame ∷ rest) g last ms r' e held got = elim (Bool-cases (eq_bytes owner frame.src)) [
    | inl same ↦
        let (one, more, pushed, got', joined) =
          receive_first (note_src g.reassembler owner).reassembler r' frame.payload
            (payloads_of owner rest) ms (rw same at got) in
        let (g', stepped, slot', reassembler') = on_owner g last frame one e same pushed in
        let (g'', handed) =
          heard rest g' frame.now more.0 more.1 slot' (rw same at held)
            (rw (reassembler', note_src_same one.1 owner) got') in
        (g'', rw (stepped, handed, joined))
    | inr other ↦
        let held' = rw other at held in
        let g' = record g { slot = owned_by owner last } in
        let (g'', handed) = heard rest g' last ms r' refl held'.1 (rw other at got) in
        (g'', rw (on_foreign g last frame e other held'.0, handed))
  ]

same_payloads :
    {ps qs : List (List ℕ)} {a b : ℕ} (m : Exec Absent (List (List ℕ) × ℕ))
    → m ≡ ok (ps, a)
    → m ≡ ok (qs, b)
    → ps ≡ qs
same_payloads m e f = cc

-- A gateway whose slot belongs to `owner`, with the buffer of its reassembler whole: messages of at
-- most 2048 bytes whose payloads the owner sends in order are handed on, in order and nothing else,
-- whatever other stations send in between, as long as each of their frames comes at most 60 seconds
-- after the owner was heard last.
pub owner_messages_arrive :
    (manager : Manager) (g : Gateway manager) (owner : List ℕ) (last id next_id : ℕ)
    (messages : List (List ℕ)) (frames : List Received)
    → g.slot ≡ owned_by owner last
    → length g.reassembler.reassembler.buf ≡ max_message
    → AreSendable messages
    → IsHeld owner last frames
    → transmit_all id messages ≡ ok (payloads_of owner frames, next_id)
    → (g' : Gateway manager) × (run manager g frames ≡ ok (messages, g'))
owner_messages_arrive manager g owner last id next_id messages frames e whole sendable held sent =
    let (ps, id', r', sent', short, got) =
      messages_arrive id messages (note_src g.reassembler owner).reassembler sendable
        (ap length (note_src-buf g.reassembler owner) ∙ whole) in
    let same : ps ≡ payloads_of owner frames =
      same_payloads (transmit_all id messages) sent' sent in
    heard manager owner frames g last messages r' e held (rw (sym same) got)
