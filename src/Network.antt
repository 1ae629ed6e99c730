-- ===== src/Network.antt =====
-- The sending half of src/TNetwork.cpp: what one method of `TNetwork` writes to a client, queues
-- for it, or sends as a datagram.
pub mod Delivery
pub mod Frame
pub mod Quiet
use beam_mp_server.Base.{
  ℕ, zero, suc, ◌+◌, ◌*◌, ◌/◌, ◌%◌, ◌^◌, Bool, true, false, not, ◌&&◌, ◌||◌, List, [], ◌∷◌, ◌++◌,
  map, Option, none, some, ltb, ◌==◌, if◌then◌else◌, length, take, is_empty, nat_eq,
}
use beam_mp_server.Base.Dict.{lookup}
use beam_mp_server.Base.Ints.{ℤ, pos}
use beam_mp_server.Base.Decimal.{to_string}
use beam_mp_server.Base.Text.{Bytes, codes}
use beam_mp_server.Compress.{compress_properly}
use beam_mp_server.Client.{
  Client, Vehicle, disconnect, is_disconnected, enqueue_packet, update_ping_time,
}
use beam_mp_server.World.{
  Outside, World, M, Outcome, ok, threw, go_on, ◌>>=◌, ◌>>◌, return, done, ask, or_throw, lock,
  fetch, modify, note, until, for_each_client, trigger, print_int, Effect, wrote, sent_udp, int_arg,
}

-- `Packet.at(0)`.
abbrev pub first : Bytes → Option ℕ
first [] = none
first (c ∷ s) = some c

-- The header of `TCPSend`: an `int32_t` with the size, least byte first, as it lies in memory.
unfoldable pub header : ℕ → Bytes
header n = (n % 256) ∷ (n / 2 ^ 8 % 256) ∷ (n / 2 ^ 16 % 256) ∷ (n / 2 ^ 24 % 256) ∷ []

abbrev pub is_queued_code : ℕ → Bool
is_queued_code c = c == b'O' || c == b'A' || c == b'C' || c == b'E'

abbrev pub is_queued : Bytes → Bool
is_queued [] = false
is_queued (c ∷ s) = is_queued_code c

module _ {J : Type 0} where
  -- `DisconnectClient`; who closed the socket is of no interest to the caller.
  unfoldable pub disconnect_client : ℕ → M J (Unit {0})
  disconnect_client h = modify h (λ c. (disconnect c).1)

  unfoldable pub update_ping : ℕ → M J (Unit {0})
  update_ping h = do now ← ask (λ w. w.now); modify h (update_ping_time now)

-- `TCPSend` while the client is being synced: the packets that matter later are queued.
unfoldable pub send_later : {J : Type 0} → ℕ → Bytes → M J Bool
send_later h packet = do
  if is_queued packet then modify h (enqueue_packet packet) else done
  return true

-- A client's address, 0 being the default endpoint.
abbrev pub address : Option ℕ → ℕ
address none = 0
address (some a) = a

abbrev pub is_large : Bytes → Bool
is_large packet = ltb 400 (length packet)

-- The sender is left out unless `self` says otherwise.
abbrev pub is_addressed : Option ℕ → Bool → ℕ → Bool
is_addressed none self h = true
is_addressed (some s) self h = self || not (h == s)

abbrev pub receives : {J : Type 0} → Option (Client J) → Bool
receives none = false
receives (some c) = c.is_synced || c.is_syncing

module _ {J : Type 0} (o : Outside J) where
  -- `asio::write`; it fails on a socket that is closed.
  unfoldable pub write_socket : ℕ → Bytes → M J Bool
  write_socket h s = do
    c ← fetch h
    works ← ask (λ w. c.socket_open && o.write_works w.trace h s)
    note (wrote h s works)
    return works

  unfoldable pub send_now : ℕ → Bytes → M J Bool
  send_now h packet = do
    works ← write_socket h (header (length packet) ++ packet)
    if works then update_ping h else disconnect_client h
    return works

  unfoldable pub tcp_send : ℕ → Bytes → Bool → M J Bool
  tcp_send h packet is_sync = do
    c ← fetch h
    if not is_sync && c.is_syncing then send_later h packet else send_now h packet

  unfoldable pub client_kick : ℕ → Bytes → M J (Unit {0})
  client_kick h reason = do tcp_send h (codes "K" ++ reason) false; disconnect_client h

  -- The packet, compressed if it is larger than 400 bytes.
  unfoldable pub shrink : Bytes → M J Bytes
  shrink packet =
      if is_large packet then or_throw (compress_properly o.zlib packet) else return packet

  unfoldable pub send_large : ℕ → Bytes → Bool → M J Bool
  send_large h packet is_sync = do small ← shrink packet; tcp_send h small is_sync

  -- The client was seen connected just before, so a failure disconnects it.
  unfoldable pub send_datagram : ℕ → ℕ → Bytes → M J Bool
  send_datagram h addr packet = do
    small ← shrink packet
    works ← ask (λ w. o.udp_works w.trace addr small)
    note (sent_udp addr small works)
    if works then done else disconnect_client h
    return works

  -- A client that has no datagram address yet, or is disconnected, is passed over.
  unfoldable pub udp_send : ℕ → Bytes → M J Bool
  udp_send h packet = do
    c ← fetch h
    if not c.is_udp_connected || is_disconnected c
        then return true
        else send_datagram h (address c.udp_addr) packet

  -- Whether a packet goes over TCP.
  unfoldable pub goes_by_tcp : ℕ → Bytes → Bool → Bool
  goes_by_tcp code packet rel =
      rel
      || code == b'W'
      || code == b'Y'
      || code == b'V'
      || code == b'E'
      || ltb 1024 (o.zlib.compress_bound (length packet))

  -- Whether such a packet may be compressed.
  unfoldable pub may_shrink : ℕ → Bytes → Bool
  may_shrink code packet = code == b'O' || code == b'T' || ltb 1000 (length packet)

  unfoldable pub respond : ℕ → Bytes → Bool → Bool → M J Bool
  respond h packet rel is_sync = do
    code ← or_throw (first packet)
    if goes_by_tcp code packet rel
        then (if may_shrink code packet
            then send_large h packet is_sync
            else tcp_send h packet is_sync)
        else udp_send h packet

  -- What `SendToAll` queues for each client.
  unfoldable pub queued_form : ℕ → Bytes → M J Bytes
  queued_form code packet = if may_shrink code packet then shrink packet else return packet

  unfoldable pub deliver : ℕ → Bytes → Bool → ℕ → M J (Unit {0})
  deliver code packet rel h =
      if goes_by_tcp code packet rel
      then (do small ← queued_form code packet; modify h (enqueue_packet small))
      else (do udp_send h packet; done)

  unfoldable pub send_to_one : Option ℕ → ℕ → Bytes → Bool → Bool → ℕ → M J Bool
  send_to_one sender code packet self rel h = do
    c ← lock h
    if receives c && is_addressed sender self h then deliver code packet rel h else done
    return true

  -- An assertion that there is a sender where `self` is false, a line in the log of a release
  -- build, is left out.
  unfoldable pub send_to_all : Option ℕ → Bytes → Bool → Bool → M J (Unit {0})
  send_to_all sender packet self rel = do
    code ← or_throw (first packet)
    for_each_client (send_to_one sender code packet self rel)

  -- The `Ss` packet: how many players there are, how many may be, and their names.
  unfoldable pub names_of : List ℕ → List (ℕ × Client J) → Bytes
  names_of [] store = []
  names_of (h ∷ hs) store = elim (lookup h store) [
    | none ↦ names_of hs store
    | some c ↦ c.name ++ codes "," ++ names_of hs store
  ]

  abbrev pub but_last : Bytes → Bytes
  but_last [] = []
  but_last (c ∷ []) = []
  but_last (c ∷ d ∷ s) = c ∷ but_last (d ∷ s)

  unfoldable pub player_list : World J → Bytes
  player_list w = but_last (
      codes "Ss"
      ++ to_string (length w.members)
      ++ codes "/"
      ++ print_int o.max_players
      ++ codes ":"
      ++ names_of w.members w.store)

  unfoldable pub update_player : ℕ → M J (Unit {0})
  update_player h = do packet ← ask player_list; modify h (enqueue_packet packet)

  -- `TVehicleData::DataAsPacket`.
  unfoldable pub data_as_packet : Bytes → Bytes → ℤ → Vehicle J → Bytes
  data_as_packet roles name id v =
      codes "Os:"
      ++ roles
      ++ codes ":"
      ++ name
      ++ codes ":"
      ++ print_int id
      ++ codes "-"
      ++ to_string v.id
      ++ codes ":"
      ++ o.json.dump v.body

  -- One round of the loop over a client's vehicles: `true` when the new client is gone.
  unfoldable pub sync_vehicle : ℕ → Client J → Vehicle J → M J Bool
  sync_vehicle h other v = do
    c ← fetch h
    if is_disconnected c then return true else (do
      respond h (data_as_packet other.roles other.name other.id v) true true
      return false)

  -- Another client that is alive has its vehicles sent.
  unfoldable pub sync_one : ℕ → ℕ → Option (Client J) → M J Bool
  sync_one h j none = return false
  sync_one h j (some c) = if j == h then return false else until c.vehicles (sync_vehicle h c)

  -- The pass over the clients: `true` when it was broken off.
  unfoldable pub sync_clients : ℕ → List ℕ → M J Bool
  sync_clients h js = until js (λ j. do other ← lock j; sync_one h j other)

  -- What follows the announcement of a client that was not synced before.
  unfoldable pub sync_state : ℕ → M J Bool
  sync_state h = do
    modify h (λ c. record c { is_syncing = true })
    members ← ask (λ w. w.members)
    gone ← sync_clients h members
    modify h (λ c. record c { is_syncing = false })
    if gone then return false else (do modify h (λ c. record c { is_synced = true }); return true)

  unfoldable pub announce : ℕ → Client J → M J Bool
  announce h c = do
    sent ← respond h (codes "Sn" ++ c.name) true false
    if not sent then return false else (do
      send_to_all (some h) (codes "JWelcome " ++ c.name ++ codes "!") false true
      trigger o (codes "onPlayerJoin") (int_arg c.id ∷ [])
      sync_state h)

  unfoldable pub sync_found : ℕ → Option (Client J) → M J Bool
  sync_found h none = return false
  sync_found h (some c) = if c.is_synced then return true else announce h c

  unfoldable pub sync_client : ℕ → M J Bool
  sync_client h = do c ← lock h; sync_found h c
