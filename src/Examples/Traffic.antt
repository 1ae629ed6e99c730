-- ===== src/Examples/Traffic.antt =====
-- The theorems about packets at concrete inputs.
use beam_mp_server.Base.{◌≡◌, refl, true, false, [], ◌∷◌, ◌++◌, some, arith, nat_eq}
use beam_mp_server.Base.Dict.{lookup}
use beam_mp_server.Base.Text.{Bytes, Free, codes}
use beam_mp_server.Ids.Laws.{print_ids}
use beam_mp_server.Client.{new_client}
use beam_mp_server.Compress.{comp, compress_properly}
use beam_mp_server.World.{World, ok, return}
use beam_mp_server.Network.{header, goes_by_tcp, may_shrink, queued_form, shrink, send_to_all}
use beam_mp_server.Network.Frame.{Frame}
use beam_mp_server.Network.Delivery.{send_to_all-queued}
use beam_mp_server.Server.{handle_event, parse_packet, global_parser}
use beam_mp_server.Server.Isolation.{global_parser-Frame}
use beam_mp_server.Server.Events.{raised, handle_event_lem, parse_packet_spoofed}
use beam_mp_server.Vehicles.{parse_vehicle}
use beam_mp_server.Vehicles.Ownership.{parse_vehicle_not_own}
use beam_mp_server.Receive.{unpack, tcp_rcv, drain, datagram}
use beam_mp_server.Receive.Framing.{tcp_rcv-header, unpack-compress_properly}
use beam_mp_server.Receive.Queue.{Drained, drain_empties}
use beam_mp_server.Receive.Datagrams.{IsStranger, datagram_stranger}
use beam_mp_server.Examples.{outside, stored, stored-IsZlib, alice, world}

global_parser-Frame_example : Frame 1 world (global_parser outside 1 (codes "Od:0-0") false world).1
global_parser-Frame_example = global_parser-Frame outside 1 (codes "Od:0-0") false world

alice_found : lookup 1 world.store ≡ some alice
unfolding lookup
alice_found = refl

-- Alice, whose id is 0, moves a car of the client with the id 1.
parse_packet_spoofed_example :
    (parse_packet outside 1 (codes "Zp:" ++ print_ids 1 0 ++ b':' ∷ codes "{}") false world).1.store
    ≡ world.store
unfolding new_client
parse_packet_spoofed_example =
    (parse_packet_spoofed outside 1 b'Z' b'p' b':' 1 0 (codes "{}") false alice world refl
      (omega arith) (omega arith) alice_found refl).0

-- Alice deletes a car of the client with the id 1.
parse_vehicle_not_own_example :
    (parse_vehicle outside 1 (codes "Od:" ++ print_ids 1 0 ++ b':' ∷ codes "{}") world).1 ≡ world
unfolding new_client
parse_vehicle_not_own_example =
    parse_vehicle_not_own outside 1 b'd' b':' 1 0 (codes "{}") alice world refl (omega arith)
      (omega arith) alice_found refl

hello-Free : Free b':' (codes "hello")
hello-Free = ground arith

handle_event_lem_example :
    (handle_event outside alice (codes "E:hello:a:b") world
      ≡ (ok tt, raised alice (codes "hello") (codes "a:b") world))
    × (handle_event outside alice (codes "E:hello") world
        ≡ (ok tt, raised alice (codes "hello") (codes "E:hello") world))
handle_event_lem_example =
    handle_event_lem outside alice b':' (codes "hello") (codes "a:b") world hello-Free

-- An event that the server raises by itself.
own_event : raised alice (codes "onInit") (codes "a") world ≡ world
own_event = refl

small_form :
    (u : World Bytes) → queued_form outside b'O' (codes "Od:0-0") u ≡ (ok (codes "Od:0-0"), u)
unfolding queued_form may_shrink shrink return
small_form u = refl

goes : goes_by_tcp outside b'O' (codes "Od:0-0") true ≡ true
unfolding goes_by_tcp
goes = refl

send_to_all-queued_example :
    (send_to_all outside (some 1) (codes "Od:0-0") false true world).0 ≡ ok tt
send_to_all-queued_example =
    (send_to_all-queued outside (some 1) b'O' (codes "d:0-0") (codes "Od:0-0") false true world goes
      small_form (refl, (refl, tt))).0

drain_empties_example :
    Drained 1 (codes "O1" ∷ codes "O2" ∷ []) false world (drain outside 3 1 world)
unfolding lookup new_client
drain_empties_example =
    drain_empties 1 outside 2 (codes "O1" ∷ codes "O2" ∷ []) false world refl (omega arith)

-- A datagram for the id 0 from an address that is not Alice's.
abbrev forged : Bytes
forged = 1 ∷ codes ":Zp:0-0:{}"

forged-IsStranger : IsStranger 9 forged world
unfolding lookup new_client
forged-IsStranger h c e = ground arith

datagram_stranger_example : (datagram outside 9 forged world).1.store ≡ world.store
datagram_stranger_example = (datagram_stranger outside 9 forged world forged-IsStranger).0

tcp_rcv-header_example :
    tcp_rcv outside 1 (header 1 ++ codes "p" ++ codes "rest") world
    ≡ (ok (unpack outside (codes "p"), codes "rest"), world)
unfolding new_client
tcp_rcv-header_example =
    tcp_rcv-header outside 1 alice (codes "p") (codes "rest") world alice_found refl (omega arith)

marked : compress_properly stored (codes "Os:") ≡ some (codes "ABG:Os:")
unfolding compress_properly comp
marked = refl

unpack-compress_properly_example : unpack outside (codes "ABG:Os:") ≡ codes "Os:"
unpack-compress_properly_example =
    unpack-compress_properly outside (codes "Os:") (codes "ABG:Os:") stored-IsZlib (omega arith)
      marked
