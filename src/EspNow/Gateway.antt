-- ===== src/EspNow/Gateway.antt =====
-- What the gateway does with a frame of the radio: `espnow_to_usb` of
-- crates/microfips-esp-transport/src/espnow_gateway.rs and `espnow_to_udp` of
-- espnow_wifi_gateway.rs up to the message that they hand on, which the one writes to the serial
-- port and the other to a socket.
pub mod Owner
use microfips.Base.{ℕ, List, [], ◌∷◌, ◌++◌, Option, none, some}
use microfips.Exec.{Exec, ok, Absent, ◌>>=◌}
use microfips.EspNow.Frag.{SrcReassembler, push_from, completed, src_new}
use microfips.EspNow.Peer.{
  PeerSlot, PeerSlotAction, Manager, observe, publish_current, apply_slot_action, empty_slot,
}

-- A frame of the radio: the source, the payload and the time of its arrival in milliseconds.
pub record Received : Type 0 where
  pub src : List ℕ
  pub payload : List ℕ
  pub now : ℕ

module _ (manager : Manager) where
  open manager use {Table}

  pub record Gateway : Type 0 where
    pub slot : PeerSlot
    pub reassembler : SrcReassembler
    pub peer_mac : ℕ
    pub table : Table

  unfoldable pub new_gateway : Table → Gateway
  unfolding src_new
  new_gateway table = record {
    slot = empty_slot;
    reassembler = src_new;
    peer_mac = 0;
    table = table;
  }

  -- A frame that is not ignored; `peer_mac` is the atomic `PEER_MAC`.
  unfoldable pub serve :
      PeerSlotAction → PeerSlot → Gateway → Received → Exec Absent (Option (List ℕ) × Gateway)
  serve action slot g frame = do
    pushed ← push_from g.reassembler frame.src frame.payload
    ok (
      pushed.0,
      record {
        slot = slot;
        reassembler = pushed.1;
        peer_mac = publish_current slot;
        table = apply_slot_action manager action g.table;
      },
    )

  -- The rest of a round, after the slot was observed.
  unfoldable pub on_action :
      PeerSlotAction × PeerSlot → Gateway → Received → Exec Absent (Option (List ℕ) × Gateway)
  on_action (PeerSlotAction.ignore, slot) g frame = ok (none, record g { slot = slot })
  on_action (action, slot) g frame = serve action slot g frame

  unfoldable pub on_frame : Gateway → Received → Exec Absent (Option (List ℕ) × Gateway)
  on_frame g frame = on_action (observe g.slot frame.src frame.now) g frame

  -- The messages that are handed on while these frames arrive.
  unfoldable pub run : Gateway → List Received → Exec Absent (List (List ℕ) × Gateway)
  run g [] = ok ([], g)
  run g (frame ∷ rest) = do
    one ← on_frame g frame
    more ← run one.1 rest
    ok (completed one.0 ++ more.0, more.1)
