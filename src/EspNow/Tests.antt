-- ===== src/EspNow/Tests.antt =====
-- Fragments at concrete messages, and a gateway with a table of peers that is a list.
use microfips.Base.{
  ℕ, ◌≡◌, List, [], ◌∷◌, Option, replicate, length-replicate, refl, arith, inl, true, false,
  if◌then◌else◌,
}
use microfips.Exec.{ok, slice, slice_from}
use microfips.EspNow.Frag.{
  Reassembler, SrcReassembler, new, src_new, push_from, receive, transmit, transmit_all, fragments,
  payloads, next_fragment,
}
use microfips.EspNow.RoundTrip.{messages_arrive, AreShort}
use microfips.EspNow.Integrity.{message-IsFrom, after_calls, IsFrom, Call}
use microfips.EspNow.Peer.{Manager, owned_by}
use microfips.EspNow.Sticky.{contains, without, Documented, radio_holds_owner, IsSound}
use microfips.EspNow.Gateway.{Received, Gateway, run, new_gateway}
use microfips.EspNow.Gateway.Owner.{owner_messages_arrive, payloads_of}

-- A message of two fragments, an empty one and a short one; the message ids wrap.
abbrev three_messages : List (List ℕ)
three_messages = replicate 300 7 ∷ [] ∷ (1 ∷ 2 ∷ []) ∷ []

messages_arrive_example :
    (ps : List (List ℕ)) × (id' : ℕ) × (r' : Reassembler) × (transmit_all 254 three_messages
      ≡ ok (ps, id'))
    × AreShort ps
    × (receive new ps ≡ ok (three_messages, r'))
unfolding new
messages_arrive_example =
    messages_arrive 254 three_messages new (omega arith) (length-replicate {A = ℕ} 2048 0)

abbrev a_mac : List ℕ
a_mac = 1 ∷ 2 ∷ 3 ∷ 4 ∷ 5 ∷ 6 ∷ []

abbrev b_mac : List ℕ
b_mac = 9 ∷ 9 ∷ 9 ∷ 9 ∷ 9 ∷ 9 ∷ []

abbrev earlier : List Call
earlier = (a_mac, 7 ∷ 0 ∷ 1 ∷ 2 ∷ []) ∷ (b_mac, 7 ∷ 1 ∷ []) ∷ []

message-IsFrom_example :
    (s : SrcReassembler) × (out : Option (List ℕ)) × (s' : SrcReassembler) × (after_calls earlier
      ≡ ok s)
    × (push_from s a_mac (7 ∷ 129 ∷ 3 ∷ []) ≡ ok (out, s'))
    × IsFrom a_mac (7 ∷ 129 ∷ 3 ∷ []) earlier out
message-IsFrom_example = message-IsFrom earlier a_mac (7 ∷ 129 ∷ 3 ∷ [])

-- A table of any length: adding never fails.
abbrev list_manager : Manager
list_manager = record {
  Table = List (List ℕ);
  peer_exists = contains;
  add_peer = λ mac t. (true, mac ∷ t);
  remove_peer = λ mac t. (contains mac t, if contains mac t then without mac t else t);
}

list_remove_lem :
    (mac : List ℕ) (t : List (List ℕ))
    → contains mac t ≡ true
    → ((list_manager.remove_peer mac t).0 ≡ true)
      × ((list_manager.remove_peer mac t).1 ≡ without mac t)
list_remove_lem mac t h = rw h (refl, refl)

list_remove_unknown :
    (mac : List ℕ) (t : List (List ℕ))
    → contains mac t ≡ false
    → ((list_manager.remove_peer mac t).0 ≡ false) × ((list_manager.remove_peer mac t).1 ≡ t)
list_remove_unknown mac t h = rw h (refl, refl)

abbrev list_documented : Documented list_manager
list_documented = record {
  peers = λ t. t;
  exists_lem = λ mac t. refl;
  add_lem = λ mac t h. inl (refl, refl);
  remove_lem = list_remove_lem;
  remove_unknown = list_remove_unknown;
}

abbrev broadcast : List ℕ
broadcast = replicate 6 255

abbrev from_a : List ℕ → ℕ → Received
from_a payload now = record { src = a_mac; payload = payload; now = now }

abbrev from_b : List ℕ → ℕ → Received
from_b payload now = record { src = b_mac; payload = payload; now = now }

-- Two messages of the owner, with a frame of another station in between.
abbrev mixed : List Received
mixed =
    from_a (7 ∷ 128 ∷ 1 ∷ 2 ∷ 3 ∷ []) 1500
    ∷ from_b (7 ∷ 0 ∷ 9 ∷ []) 61000
    ∷ from_a (8 ∷ 128 ∷ 4 ∷ []) 61400
    ∷ []

-- The second station takes the slot over after the first has been silent.
abbrev swapping : List Received
swapping = from_a (7 ∷ 128 ∷ 1 ∷ []) 1500 ∷ from_b (7 ∷ 0 ∷ 9 ∷ []) 71000 ∷ []

radio_holds_owner_example :
    (ms : List (List ℕ)) × (g : Gateway list_manager) × (run list_manager
        (new_gateway list_manager (broadcast ∷ []))
        swapping
      ≡ ok (ms, g))
    × IsSound list_manager list_documented (broadcast ∷ []) g
radio_holds_owner_example =
    radio_holds_owner list_manager list_documented (broadcast ∷ []) (broadcast ∷ []) swapping refl
      (refl, (refl, tt))

abbrev owned : Gateway list_manager
owned = record {
  slot = owned_by a_mac 1000;
  reassembler = src_new;
  peer_mac = 0;
  table = a_mac ∷ [];
}

abbrev owner_sends : List (List ℕ)
owner_sends = (1 ∷ 2 ∷ 3 ∷ []) ∷ (4 ∷ []) ∷ []

sent_by_owner : transmit_all 7 owner_sends ≡ ok (payloads_of a_mac mixed, 9)
unfolding transmit_all transmit fragments payloads next_fragment slice slice_from
sent_by_owner = refl

owner_messages_arrive_example :
    (g' : Gateway list_manager) × (run list_manager owned mixed ≡ ok (owner_sends, g'))
unfolding src_new new
owner_messages_arrive_example =
    owner_messages_arrive list_manager owned a_mac 1000 7 9 owner_sends mixed refl
      (length-replicate {A = ℕ} 2048 0) (omega arith) (omega arith) sent_by_owner
