-- ===== src/EspNow/Sticky.antt =====
-- The radio's table of peers under a gateway, whatever frames arrive.
use microfips.Base.{
  ℕ, ◌-◌, ◌≡◌, List, [], ◌∷◌, ◌++◌, Option, none, some, Bool, true, false, ◌||◌, if◌then◌else◌, leb,
  arith, refl, sym, ap, ◌∙◌, Bool-cases, inl, inr, ◌⊎◌, length-replicate,
}
use microfips.Bytes.{eq_bytes, eq_bytes_self}
use microfips.Exec.{Exec, ok, Absent}
use microfips.EspNow.Frag.{
  SrcReassembler, note_src, same_src, push, push_from, src_new, new, completed,
}
use microfips.Exec.Post.{returned}
use microfips.EspNow.Reassembly.{IsWhole, Outcome, push_outcome, Outcome-IsWhole}
use microfips.EspNow.Peer.{
  PeerSlot, PeerSlotAction, Manager, observe, observe_from, publish_current, apply_slot_action,
  ensure_radio_peer,
}
use microfips.EspNow.Gateway.{Received, Gateway, new_gateway, serve, on_action, on_frame, run}

abbrev pub contains : List ℕ → List (List ℕ) → Bool
contains mac [] = false
contains mac (m ∷ ms) = eq_bytes m mac || contains mac ms

abbrev pub without : List ℕ → List (List ℕ) → List (List ℕ)
without mac [] = []
without mac (m ∷ ms) = if eq_bytes m mac then without mac ms else m ∷ without mac ms

-- What the radio's documentation says of its manager: its table is a list of peers; a peer that is
-- not in it is added, or that fails and leaves it, as where it is full; a peer that is in it is
-- removed; to remove one that is not in it fails and leaves it.
pub record Documented (manager : Manager) : Type 0 where
  pub peers : manager.Table → List (List ℕ)
  pub exists_lem :
      (mac : List ℕ) (t : manager.Table) → manager.peer_exists mac t ≡ contains mac (peers t)
  pub add_lem :
      (mac : List ℕ) (t : manager.Table)
      → contains mac (peers t) ≡ false
      → (((manager.add_peer mac t).0 ≡ true) × (peers (manager.add_peer mac t).1 ≡ mac ∷ peers t))
        ⊎ (((manager.add_peer mac t).0 ≡ false) × (peers (manager.add_peer mac t).1 ≡ peers t))
  pub remove_lem :
      (mac : List ℕ) (t : manager.Table)
      → contains mac (peers t) ≡ true
      → ((manager.remove_peer mac t).0 ≡ true)
        × (peers (manager.remove_peer mac t).1 ≡ without mac (peers t))
  pub remove_unknown :
      (mac : List ℕ) (t : manager.Table)
      → contains mac (peers t) ≡ false
      → ((manager.remove_peer mac t).0 ≡ false) × (peers (manager.remove_peer mac t).1 ≡ peers t)

-- Over the peers `base` that the radio has from the start, as the broadcast address, at most the owner
-- of the slot is in the table.
abbrev pub AtMostOwner : List (List ℕ) → Option (List ℕ) → List (List ℕ) → Type 0
AtMostOwner base none ps = ps ≡ base
AtMostOwner base (some mac) ps = (contains mac base ≡ false) × ((ps ≡ base) ⊎ (ps ≡ mac ∷ base))

-- Frames whose source is a station, none of the peers from the start.
abbrev pub AreStations : List (List ℕ) → List Received → Type 0
AreStations base [] = Unit
AreStations base (frame ∷ rest) = (contains frame.src base ≡ false) × AreStations base rest

without_absent : (mac : List ℕ) (ps : List (List ℕ)) → contains mac ps ≡ false → without mac ps ≡ ps
without_absent mac [] h = refl
without_absent mac (m ∷ ms) h = elim (Bool-cases (eq_bytes m mac)) [
  | inl same ↦ absurd (ground (arith, h, same))
  | inr other ↦ rw other (ap (λ t. m ∷ t) (without_absent mac ms (ground (arith, h, other))))
]

module _ (manager : Manager) (doc : Documented manager) (base : List (List ℕ)) where
  open manager use {Table, peer_exists}
  open doc use {peers, exists_lem, add_lem, remove_lem, remove_unknown}

  added :
      (mac : List ℕ) (t : Table)
      → contains mac base ≡ false
      → peers t ≡ base
      → AtMostOwner base (some mac) (peers (ensure_radio_peer manager mac t))
  unfolding ensure_radio_peer
  added mac t station e =
      let absent : contains mac (peers t) ≡ false = ap (contains mac) e ∙ station in
      let new : peer_exists mac t ≡ false = exists_lem mac t ∙ absent in
      elim (add_lem mac t absent) [
        | inl there ↦ rw new (station, inr (there.1 ∙ ap (λ ps. mac ∷ ps) e))
        | inr failed ↦ rw new (station, inl (failed.1 ∙ e))
      ]

  removed :
      (mac : List ℕ) (t : Table)
      → AtMostOwner base (some mac) (peers t)
      → peers (manager.remove_peer mac t).1 ≡ base
  removed mac t (station, inl e) = (remove_unknown mac t (ap (contains mac) e ∙ station)).1 ∙ e
  removed mac t (station, inr e) =
      let here : contains mac (mac ∷ base) ≡ true = rw (eq_bytes_self mac) refl in
      let left : without mac (mac ∷ base) ≡ base =
        rw (eq_bytes_self mac) (without_absent mac base station) in
      (remove_lem mac t (ap (contains mac) e ∙ here)).1 ∙ ap (without mac) e ∙ left

  -- What the slot and the table become with a frame.
  abbrev Observed : Option (List ℕ) → PeerSlot → Table → List ℕ → ℕ → Type 0
  Observed known slot t src now =
      let (action, slot') = observe_from known slot src now in
      AtMostOwner base slot'.mac (peers (apply_slot_action manager action t))

  observed_lem :
      (known : Option (List ℕ)) (slot : PeerSlot) (t : Table) (src : List ℕ) (now : ℕ)
      → contains src base ≡ false
      → slot.mac ≡ known
      → AtMostOwner base known (peers t)
      → Observed known slot t src now
  unfolding apply_slot_action
  observed_lem none slot t src now station e h = added src t station h
  observed_lem (some mac) slot t src now station e h = elim (Bool-cases (eq_bytes mac src)) [
    | inl same ↦ rw (same, e) h
    | inr other ↦ elim (Bool-cases (leb (now - slot.last_seen_ms) 60000)) [
      | inl held ↦ rw (other, held, e) h
      | inr free ↦
          rw (other, free) (added src (manager.remove_peer mac t).1 station (removed mac t h))
    ]
  ]

-- A frame that is ignored leaves the slot as it was.
abbrev Unchanged : PeerSlotAction × PeerSlot → PeerSlot → Type 0
Unchanged (PeerSlotAction.ignore, slot') slot = slot' ≡ slot
Unchanged (PeerSlotAction.keep, slot') slot = Unit
Unchanged (PeerSlotAction.register mac, slot') slot = Unit
Unchanged (PeerSlotAction.swap remove add, slot') slot = Unit

unchanged_lem :
    (known : Option (List ℕ)) (slot : PeerSlot) (src : List ℕ) (now : ℕ)
    → Unchanged (observe_from known slot src now) slot
unchanged_lem none slot src now = tt
unchanged_lem (some mac) slot src now = elim (Bool-cases (eq_bytes mac src)) [
  | inl same ↦ rw same tt
  | inr other ↦ elim (Bool-cases (leb (now - slot.last_seen_ms) 60000)) [
    | inl held ↦ rw (other, held) refl
    | inr free ↦ rw (other, free) tt
  ]
]

noted-IsWhole :
    (s : SrcReassembler) (src : List ℕ)
    → IsWhole s.reassembler
    → IsWhole (note_src s src).reassembler
noted-IsWhole s src whole = elim (Bool-cases (same_src s.src src)) [
  | inl same ↦ rw same whole
  | inr other ↦ rw other whole
]

-- A push leaves a whole buffer.
outcome-IsWhole :
    (s : SrcReassembler) (src payload : List ℕ)
    → IsWhole s.reassembler
    → (out : Option (List ℕ)) × (s' : SrcReassembler) × (push_from s src payload ≡ ok (out, s'))
      × IsWhole s'.reassembler
unfolding push_from
outcome-IsWhole s src payload whole =
    let r = (note_src s src).reassembler in
    let (one, pushed, outcome) =
      returned (Outcome r payload) (push r payload)
        (push_outcome r payload (noted-IsWhole s src whole)) in
    (
      one.0,
      record (note_src s src) { reassembler = one.1 },
      rw pushed,
      Outcome-IsWhole r payload one outcome,
    )

module _ (manager : Manager) (doc : Documented manager) (base : List (List ℕ)) where
  open doc use {peers}

  abbrev pub IsSound : Gateway manager → Type 0
  IsSound g =
      AtMostOwner base g.slot.mac (peers g.table)
      × (g.peer_mac ≡ publish_current g.slot)
      × IsWhole g.reassembler.reassembler

  abbrev Goes : Exec Absent (Option (List ℕ) × Gateway manager) → Type 0
  Goes m = (out : Option (List ℕ)) × (g' : Gateway manager) × (m ≡ ok (out, g')) × IsSound g'

  serve_lem :
      (action : PeerSlotAction) (slot : PeerSlot) (g : Gateway manager) (frame : Received)
      → AtMostOwner base slot.mac (peers (apply_slot_action manager action g.table))
      → IsWhole g.reassembler.reassembler
      → Goes (serve manager action slot g frame)
  unfolding serve
  serve_lem action slot g frame owner whole =
      let (out, s', pushed, whole') = outcome-IsWhole g.reassembler frame.src frame.payload whole in
      (
        out,
        record {
          slot = slot;
          reassembler = s';
          peer_mac = publish_current slot;
          table = apply_slot_action manager action g.table;
        },
        rw pushed,
        (owner, refl, whole'),
      )

  ignored :
      (slot : PeerSlot) (t : manager.Table)
      → AtMostOwner base slot.mac (peers (apply_slot_action manager PeerSlotAction.ignore t))
      → AtMostOwner base slot.mac (peers t)
  unfolding apply_slot_action
  ignored slot t h = h

  on_action_lem :
      (action : PeerSlotAction) (slot : PeerSlot) (g : Gateway manager) (frame : Received)
      → AtMostOwner base slot.mac (peers (apply_slot_action manager action g.table))
      → Unchanged (action, slot) g.slot
      → IsSound g
      → Goes (on_action manager (action, slot) g frame)
  unfolding on_action
  on_action_lem PeerSlotAction.ignore slot g frame owner same s = (
    none,
    record g { slot = slot },
    refl,
    (ignored slot g.table owner, s.1 ∙ ap publish_current (sym same), s.2),
  )
  on_action_lem PeerSlotAction.keep slot g frame owner same s =
      serve_lem PeerSlotAction.keep slot g frame owner s.2
  on_action_lem (PeerSlotAction.register mac) slot g frame owner same s =
      serve_lem (PeerSlotAction.register mac) slot g frame owner s.2
  on_action_lem (PeerSlotAction.swap remove add) slot g frame owner same s =
      serve_lem (PeerSlotAction.swap remove add) slot g frame owner s.2

  on_frame_lem :
      (g : Gateway manager) (frame : Received)
      → contains frame.src base ≡ false
      → IsSound g
      → Goes (on_frame manager g frame)
  unfolding on_frame observe
  on_frame_lem g frame station s =
      let observed = observe g.slot frame.src frame.now in
      on_action_lem observed.0 observed.1 g frame
        (observed_lem manager doc base g.slot.mac g.slot g.table frame.src frame.now station refl
          s.0)
        (unchanged_lem g.slot.mac g.slot frame.src frame.now) s

  run-IsSound :
      (frames : List Received) (g : Gateway manager)
      → AreStations base frames
      → IsSound g
      → (ms : List (List ℕ)) × (g' : Gateway manager) × (run manager g frames ≡ ok (ms, g'))
        × IsSound g'
  unfolding run
  run-IsSound [] g stations s = ([], g, refl, s)
  run-IsSound (frame ∷ rest) g stations s =
      let (out, g', stepped, s') = on_frame_lem g frame stations.0 s in
      let (ms, g'', ran, s'') = run-IsSound rest g' stations.1 s' in
      (completed out ++ ms, g'', rw (stepped, ran), s'')

  -- A gateway whose radio has the peers `base` at the start, whatever frames arrive from other
  -- sources than these: it does not panic, the table of the radio holds `base` and at most the owner of
  -- the slot over it, the MAC that is published is the owner's, and the buffer of the reassembler is
  -- whole.
  pub radio_holds_owner :
      (table : manager.Table) (frames : List Received)
      → peers table ≡ base
      → AreStations base frames
      → (ms : List (List ℕ)) × (g : Gateway manager) × (run manager
            (new_gateway manager table)
            frames
          ≡ ok (ms, g))
        × IsSound g
  unfolding new_gateway src_new new
  radio_holds_owner table frames e stations =
      run-IsSound frames (new_gateway manager table) stations
        (e, refl, (length-replicate {A = ℕ} 2048 0, omega arith))
