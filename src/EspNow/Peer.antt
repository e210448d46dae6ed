-- ===== src/EspNow/Peer.antt =====
-- The slot of the one peer, crates/microfips-esp-common/src/espnow_peer.rs, and what a gateway does
-- with the radio's table of peers, crates/microfips-esp-transport/src/esp_now_transport.rs.
use microfips.Base.{ℕ, ◌-◌, List, Option, none, some, leb, if◌then◌else◌, Bool}
use microfips.Bytes.{eq_bytes}
use microfips.EspNow.Mac.{pack_mac}

abbrev pub active_hold_ms : ℕ
active_hold_ms = 60000

pub data PeerSlotAction : Type 0 where
  register : (mac : List ℕ) → PeerSlotAction
  swap : (remove add : List ℕ) → PeerSlotAction
  keep : PeerSlotAction
  ignore : PeerSlotAction

pub record PeerSlot : Type 0 where
  pub mac : Option (List ℕ)
  pub last_seen_ms : ℕ

abbrev pub empty_slot : PeerSlot
empty_slot = record { mac = none; last_seen_ms = 0 }

abbrev pub owned_by : List ℕ → ℕ → PeerSlot
owned_by mac last_seen_ms = record { mac = some mac; last_seen_ms = last_seen_ms }

abbrev pub observe_from :
    Option (List ℕ) → PeerSlot → (src : List ℕ) (now : ℕ) → PeerSlotAction × PeerSlot
observe_from none slot src now = (PeerSlotAction.register src, owned_by src now)
observe_from (some current) slot src now =
    if eq_bytes current src
    then (PeerSlotAction.keep, record slot { last_seen_ms = now })
    else if leb (now - slot.last_seen_ms) active_hold_ms
    then (PeerSlotAction.ignore, slot)
    else (PeerSlotAction.swap current src, owned_by src now)

-- `PeerSlot::observe`
unfoldable pub observe : PeerSlot → (src : List ℕ) (now : ℕ) → PeerSlotAction × PeerSlot
observe slot src now = observe_from slot.mac slot src now

-- `publish_current`: the value of the atomic.
abbrev pub publish_current : PeerSlot → ℕ
publish_current slot = elim slot.mac [ none ↦ 0 | some mac ↦ pack_mac mac ]

-- The manager of the radio, of the crate esp_radio: it answers whether a MAC is in its table, and
-- adds or removes one, with `true` for `Ok`. The callers discard that result.
pub record Manager : Type 1 where
  pub Table : Type 0
  pub peer_exists : List ℕ → Table → Bool
  pub add_peer : List ℕ → Table → Bool × Table
  pub remove_peer : List ℕ → Table → Bool × Table

module _ (manager : Manager) where
  open manager use {Table, peer_exists, add_peer, remove_peer}

  unfoldable pub ensure_radio_peer : List ℕ → Table → Table
  ensure_radio_peer mac table = if peer_exists mac table then table else (add_peer mac table).1

  unfoldable pub apply_slot_action : PeerSlotAction → Table → Table
  unfolding ensure_radio_peer
  apply_slot_action PeerSlotAction.ignore table = table
  apply_slot_action PeerSlotAction.keep table = table
  apply_slot_action (PeerSlotAction.register mac) table = ensure_radio_peer mac table
  apply_slot_action (PeerSlotAction.swap remove add) table =
      ensure_radio_peer add (remove_peer remove table).1
