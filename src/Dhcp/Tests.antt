-- ===== src/Dhcp/Tests.antt =====
-- The server at concrete packets: a pool of three addresses from 192.168.4.10.
use microfips.Base.{
  ℕ, ◌≡◌, List, [], ◌∷◌, ◌++◌, Option, none, some, replicate, take, drop, refl, arith, inr,
}
use microfips.Exec.{Exec, ok, Absent, index, slice, store, copy_into, IsNotPanic, ◌>>=◌}
use microfips.Dhcp.Request.{
  Request, magic_cookie, get, get_range, set_option, parse_options, read_header, parse_body,
  parse_request,
}
use microfips.Dhcp.Leases.{Config, Server, Lease, allocate, find_lease, ip_for}
use microfips.Dhcp.Server.{Answer, answer, on_discover, decide, decide_all, msg_offer, msg_ack}
use microfips.Dhcp.Reply.{build_reply, handle}
use microfips.Dhcp.Total.{parse_request-IsNotPanic}
use microfips.Dhcp.Fair.{Holds}
use microfips.Dhcp.Exclusive.{lease_is_exclusive, AllSpare, Keeps}
use microfips.Dhcp.Between.{address}
use microfips.Dhcp.Offered.{offered_address_is_leased}

abbrev cfg : Config
cfg = record {
  server_ip = 192 ∷ 168 ∷ 4 ∷ 1 ∷ [];
  subnet_mask = 255 ∷ 255 ∷ 255 ∷ 0 ∷ [];
  pool_start = 192 ∷ 168 ∷ 4 ∷ 10 ∷ [];
  lease_secs = 600;
}

abbrev mac_a : List ℕ
mac_a = 1 ∷ 1 ∷ 1 ∷ 1 ∷ 1 ∷ 1 ∷ []

abbrev mac_b : List ℕ
mac_b = 2 ∷ 2 ∷ 2 ∷ 2 ∷ 2 ∷ 2 ∷ []

abbrev lease_a : Lease
lease_a = record { mac = mac_a; expires_at = 1000 }

-- The first address is leased to the first client.
abbrev server : Server
server = record { cfg = cfg; leases = some lease_a ∷ none ∷ none ∷ [] }

-- A packet with these options.
abbrev packet : (mac options : List ℕ) → List ℕ
packet mac options =
    1
    ∷ 1
    ∷ 6
    ∷ 0
    ∷ 9
    ∷ 8
    ∷ 7
    ∷ 6
    ∷ (replicate 20 0 ++ (mac ++ (replicate 202 0 ++ (magic_cookie ++ options))))

-- The second client asks for the address of the first one, and then for any.
abbrev greedy : List ℕ
greedy = packet mac_b (53 ∷ 1 ∷ 3 ∷ 50 ∷ 4 ∷ 192 ∷ 168 ∷ 4 ∷ 10 ∷ 255 ∷ [])

abbrev asking : List ℕ
asking = packet mac_b (53 ∷ 1 ∷ 1 ∷ 0 ∷ 255 ∷ [])

abbrev asking_request : Request
asking_request = record {
  xid = 9 ∷ 8 ∷ 7 ∷ 6 ∷ [];
  flags = 0 ∷ 0 ∷ [];
  chaddr = mac_b;
  ciaddr = 0 ∷ 0 ∷ 0 ∷ 0 ∷ [];
  msg_type = 1;
  requested_ip = none;
  server_id = none;
}

parses : parse_request asking ≡ ok asking_request
unfolding parse_request parse_body read_header parse_options get get_range set_option index slice
parses = refl

-- The length of a reply, its address and its first option.
abbrev brief : (Option ℕ × List ℕ) × Server → Exec Absent (Option ℕ × List ℕ × List ℕ)
brief sent = ok (sent.0.0, take 4 (drop 16 sent.0.1), take 3 (drop 240 sent.0.1))

-- The reply to the second client offers the second address.
offered :
    (do sent ← handle server asking 5 (replicate 320 7); brief sent)
    ≡ ok (some 300, 192 ∷ 168 ∷ 4 ∷ 11 ∷ [], 53 ∷ 1 ∷ 2 ∷ [])
unfolding handle decide parse_request parse_body read_header parse_options get get_range set_option
    index slice store copy_into build_reply answer on_discover allocate find_lease ip_for
offered = refl

parse_request-IsNotPanic_example : IsNotPanic (parse_request (packet mac_b (53 ∷ 9 ∷ [])))
parse_request-IsNotPanic_example = parse_request-IsNotPanic (packet mac_b (53 ∷ 9 ∷ []))

abbrev packets : List (List ℕ × ℕ)
packets = (greedy, 5) ∷ (asking, 6) ∷ []

lease_is_exclusive_example :
    (answers : List (Option (Request × Answer))) × (s' : Server) × (decide_all server packets
      ≡ ok (answers, s'))
    × AllSpare cfg 0 answers
    × Keeps server 0 lease_a s'
unfolding parse_request parse_body read_header parse_options get get_range set_option index slice
lease_is_exclusive_example =
    lease_is_exclusive server 0 lease_a packets (omega arith) refl
      ((omega arith, omega arith, refl), ((omega arith, omega arith, refl), tt))

abbrev taking : Request
taking = record {
  xid = 9 ∷ 8 ∷ 7 ∷ 6 ∷ [];
  flags = 0 ∷ 0 ∷ [];
  chaddr = mac_b;
  ciaddr = 0 ∷ 0 ∷ 0 ∷ 0 ∷ [];
  msg_type = 3;
  requested_ip = some (192 ∷ 168 ∷ 4 ∷ 11 ∷ []);
  server_id = some (192 ∷ 168 ∷ 4 ∷ 1 ∷ []);
}

abbrev between_answers : List (Option (Request × Answer))
between_answers =
    some (asking_request, record { msg_type = msg_offer; yiaddr = 192 ∷ 168 ∷ 4 ∷ 11 ∷ [] }) ∷ []

-- The client asks again before it takes the address.
offered_address_is_leased_example :
    (idx : ℕ) × (s' : Server) × (192 ∷ 168 ∷ 4 ∷ 11 ∷ [] ≡ address cfg idx)
    × (answer server taking 7
        ≡ ok (some (record { msg_type = msg_ack; yiaddr = 192 ∷ 168 ∷ 4 ∷ 11 ∷ [] }), s'))
    × Holds s' idx (record { mac = mac_b; expires_at = 607 })
unfolding decide_all decide parse_request parse_body read_header parse_options get get_range
    set_option index slice answer on_discover allocate find_lease ip_for
offered_address_is_leased_example =
    offered_address_is_leased server server server asking_request taking 5 7
      (record { msg_type = msg_offer; yiaddr = 192 ∷ 168 ∷ 4 ∷ 11 ∷ [] }) ((asking, 6) ∷ [])
      between_answers (omega arith) refl refl refl (inr (λ e. absurd (omega (arith, e))), tt) refl
      refl refl refl (omega arith) (omega arith)
