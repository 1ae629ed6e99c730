-- ===== src/Receive.antt =====
-- The receiving half of src/TNetwork.cpp: `TCPRcv`, the loop that empties a client's queue
-- (`Looper`), and one datagram of `UDPServerMain`. A stream is what a client sends before it
-- closes its connection or lets a read run into its timeout.
pub mod Framing
pub mod Queue
pub mod Datagrams
use beam_mp_server.Base.{
  ℕ, zero, suc, ◌+◌, ◌*◌, ◌-◌, ◌%◌, ◌^◌, Bool, true, false, not, ◌&&◌, ◌||◌, List, [], ◌∷◌, ◌++◌,
  Option, none, some, ltb, leb, ◌==◌, if◌then◌else◌, length, take, drop, is_empty, list_beq, nat_eq,
}
use beam_mp_server.Base.Ints.{ℤ, pos, negsuc, is_id}
use beam_mp_server.Base.Text.{Bytes, codes, find, starts_with}
use beam_mp_server.Client.{Client, is_disconnected}
use beam_mp_server.Compress.{Inflated, inflated, de_comp}
use beam_mp_server.World.{
  Outside, World, M, ◌>>=◌, ◌>>◌, return, done, ask, fetch, lock, modify, note, for_each_client,
  Effect, sent_udp,
}
use beam_mp_server.Network.{client_kick, disconnect_client, tcp_send}
use beam_mp_server.Vehicles.{byte_at}
use beam_mp_server.Server.{global_parser}

-- The four bytes of a header, the least first.
abbrev pub header_word : Bytes → ℕ
header_word s = byte_at 0 s + byte_at 1 s * 2 ^ 8 + byte_at 2 s * 2 ^ 16 + byte_at 3 s * 2 ^ 24

-- The header as an `int32_t`.
unfoldable pub header_value : Bytes → ℤ
header_value s = let n = header_word s in if ltb n (2 ^ 31) then pos n else negsuc (2 ^ 32 - 1 - n)

-- A client with no name may send less.
abbrev pub max_header_size : Bytes → ℕ
max_header_size name = if is_empty name then 4096 else 100 * (1024 * 1024)

-- A packet that cannot be decompressed is received as an empty one.
abbrev pub or_nothing : Inflated → Bytes
or_nothing (inflated s) = s
or_nothing _ = []

unfoldable pub pop_packet : {J : Type 0} → Client J → Client J
pop_packet c = record c { missed = drop 1 c.missed }

unfoldable pub clear_queue : {J : Type 0} → Client J → Client J
clear_queue c = record c { missed = [] }

-- The place of the first colon, or the end.
abbrev pub colon_place : Bytes → ℕ
colon_place s = elim (find b':' s) [ none ↦ length s | some i ↦ i ]

-- `uint8_t(Data.at(0)) - 1` as a byte.
abbrev pub datagram_id : Bytes → ℕ
datagram_id s = (byte_at 0 s + 255) % 256

-- The address that a client has bound; a datagram never comes from the default endpoint.
abbrev pub is_bound_to : ℕ → Option ℕ → Bool
is_bound_to from none = false
is_bound_to from (some a) = a == from

abbrev pub is_unbound : Option ℕ → Bool
is_unbound none = true
is_unbound (some a) = false

abbrev pub awaits_magic : {J : Type 0} → Client J → Bool
awaits_magic c = is_unbound c.udp_addr && not c.is_udp_connected && not (is_empty c.magic)

abbrev pub has_magic : {J : Type 0} → Bytes → Client J → Bool
has_magic s c = length s == 66 && list_beq (drop 2 s) c.magic

unfoldable pub bind_address : {J : Type 0} → ℕ → Client J → Client J
bind_address from c = record c { magic = []; udp_addr = some from; is_udp_connected = true }

module _ {J : Type 0} (o : Outside J) where
  unfoldable pub unpack : Bytes → Bytes
  unpack body =
      if starts_with (codes "ABG:") body then or_nothing (de_comp o.zlib (drop 4 body)) else body

  -- What is received, and the rest of the stream. The empty packet stands for every failure.
  unfoldable pub receive_body : ℕ → Bytes → ℤ → Bytes → M J (Bytes × Bytes)
  receive_body h name (negsuc n) stream = do
    client_kick o h (codes "Invalid packet - header negative")
    return ([], stream)
  receive_body h name (pos n) stream =
      if not (ltb n (max_header_size name))
      then (do client_kick o h (codes "Header size limit exceeded"); return ([], stream))
      else if ltb (length stream) n
      then return ([], [])
      else return (unpack (take n stream), drop n stream)

  unfoldable pub tcp_rcv : ℕ → Bytes → M J (Bytes × Bytes)
  tcp_rcv h stream = do
    c ← fetch h
    if is_disconnected c
        then return ([], stream)
        else if ltb (length stream) 4
        then return ([], [])
        else receive_body h c.name (header_value (take 4 stream)) (drop 4 stream)

  -- The inner loop of `Looper`, on fuel, while no other thread adds to the queue: a packet is
  -- taken from the front and sent, and a failure clears the rest.
  unfoldable pub send_missed : ℕ → List Bytes → M J Bool
  send_missed h [] = return false
  send_missed h (packet ∷ rest) = do
    modify h pop_packet
    sent ← tcp_send o h packet true
    if sent then done else (do disconnect_client h; modify h clear_queue)
    return sent

  unfoldable pub drain : ℕ → ℕ → M J (Unit {0})
  drain zero h = done
  drain (suc fuel) h = do
    c ← fetch h
    more ← send_missed h c.missed
    if more then drain fuel h else done

  -- One round of the outer loop.
  unfoldable pub looper_round : ℕ → ℕ → Client J → M J (Unit {0})
  looper_round fuel h c =
      if not c.is_syncing && c.is_synced && not (is_disconnected c) then drain fuel h else done

  -- What a datagram means for one client; `false` ends the pass.
  unfoldable pub datagram_for : ℕ → Bytes → ℕ → Client J → M J Bool
  datagram_for from s h c =
      if not (is_id c.id (datagram_id s))
      then return true
      else if awaits_magic c
      then (do if has_magic s c then modify h (bind_address from) else done; return false)
      else if is_bound_to from c.udp_addr
      then (do global_parser o h (drop 2 s) true; return true)
      else return false

  unfoldable pub datagram_found : ℕ → Bytes → ℕ → Option (Client J) → M J Bool
  datagram_found from s h none = return true
  datagram_found from s h (some c) = datagram_for from s h c

  unfoldable pub datagram_to : ℕ → Bytes → ℕ → M J Bool
  datagram_to from s h = do c ← lock h; datagram_found from s h c

  unfoldable pub answer_ping : ℕ → M J (Unit {0})
  answer_ping from = do
    works ← ask (λ w. o.udp_works w.trace from (codes "P"))
    note (sent_udp from (codes "P") works)

  -- One datagram. Of one with a single byte, the code cuts off two; the model leaves nothing.
  unfoldable pub datagram : ℕ → Bytes → M J (Unit {0})
  datagram from s =
      if is_empty s
      then done
      else if list_beq s (codes "P")
      then answer_ping from
      else if ltb 2 (colon_place s)
      then done
      else for_each_client (datagram_to from s)
