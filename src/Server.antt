-- ===== src/Server.antt =====
-- `TServer::GlobalParser`, `HandleEvent`, `HandlePosition` and the set of clients, in src/TServer.cpp.
-- A packet comes with the way it came: `udp` is true for a datagram.
pub mod Isolation
pub mod Events
use beam_mp_server.Base.{
  ℕ, zero, suc, ◌+◌, ◌-◌, Bool, true, false, not, ◌&&◌, ◌||◌, List, [], ◌∷◌, ◌++◌, Option, none,
  some, ltb, leb, ◌==◌, if◌then◌else◌, length, take, drop, any_of, is_empty, list_beq, nat_eq,
}
use mathlib.Core.Option
use beam_mp_server.Base.Dict.{lookup, adjust}
use beam_mp_server.Base.Ints.{ℤ, pos}
use beam_mp_server.Base.Text.{Bytes, codes, find, find_from, substr, up_to, starts_with}
use beam_mp_server.Ids.{after_sep, get_pid_vid, PidVidData, parse_position_packet}
use beam_mp_server.Client.{Client, set_car_position, clear_cars}
use beam_mp_server.Compress.{
  Inflated, inflated, invalid_data, runtime_error, out_of_rounds, de_comp,
}
use beam_mp_server.World.{
  Outside, World, M, ◌>>=◌, ◌>>◌, return, done, or_throw, ask, lock, modify, trigger, increment_pps,
  Arg, int_arg, text_arg, bool_arg, vetoes,
}
use beam_mp_server.Network.{
  client_kick, disconnect_client, respond, send_to_all, sync_client, update_player,
}
use beam_mp_server.Vehicles.{own_vid, parse_vehicle, byte_at}

-- The names of the server's own events, which a client may not trigger.
unfoldable pub excluded : List Bytes
excluded =
    codes "onInit"
    ∷ codes "onFileChanged"
    ∷ codes "onVehicleDeleted"
    ∷ codes "onConsoleInput"
    ∷ codes "onPlayerAuth"
    ∷ codes "postPlayerAuth"
    ∷ codes "onPlayerDisconnect"
    ∷ codes "onPlayerConnecting"
    ∷ codes "onPlayerJoining"
    ∷ codes "onPlayerJoin"
    ∷ codes "onChatMessage"
    ∷ codes "postChatMessage"
    ∷ codes "onVehicleSpawn"
    ∷ codes "postVehicleSpawn"
    ∷ codes "onVehicleEdited"
    ∷ codes "postVehicleEdited"
    ∷ codes "onVehicleReset"
    ∷ codes "onVehiclePaintChanged"
    ∷ codes "onShutdown"
    ∷ []

-- `RawData.substr(2, NameDataSep - 2)`: with no separator, all that follows the first two bytes.
unfoldable pub event_name : Bytes → Bytes
event_name raw = up_to (Option.map (λ i. i - 2) (find_from b':' 2 raw)) (drop 2 raw)

unfoldable pub event_data : Bytes → Bytes
event_data raw = after_sep (find_from b':' 2 raw) raw

unfoldable pub is_excluded : Bytes → Bool
is_excluded name = any_of (list_beq name) excluded

-- The message of a chat packet.
abbrev pub message_at : Option ℕ → Bytes → Bytes
message_at none packet = []
message_at (some i) packet = if ltb (i + 2) (length packet) then drop (i + 2) packet else []

unfoldable pub chat_message : Bytes → Bytes
chat_message packet = message_at (find_from b':' 3 packet) packet

abbrev pub is_some : Option ℕ → Bool
is_some none = false
is_some (some i) = true

-- Whether a chat packet has a message that may be passed on.
unfoldable pub is_chat : Bytes → Bool
is_chat packet =
    not (ltb (length packet) 4 || not (is_some (find_from b':' 3 packet)))
    && not (is_empty (chat_message packet))
    && leb (length (chat_message packet)) 500

-- The vehicle of a `V` to `Z` packet, if it is the sender's; `none` is the exception of `substr`.
unfoldable pub sender_vid : {J : Type 0} → Client J → Bytes → Option (Option ℕ)
sender_vid c packet =
    Option.map (λ part. own_vid c.id (get_pid_vid (up_to (find b':' part) part))) (substr 3 packet)

module _ {J : Type 0} (o : Outside J) where
  unfoldable pub handle_event : Client J → Bytes → M J (Unit {0})
  handle_event c raw =
      if ltb (length raw) 2 || is_excluded (event_name raw)
      then done
      else (do trigger o (event_name raw) (int_arg c.id ∷ text_arg (event_data raw) ∷ []); done)

  unfoldable pub store_position : ℕ → Option PidVidData → M J (Unit {0})
  store_position h none = done
  store_position h (some d) = modify h (set_car_position d.vid d.body)

  unfoldable pub handle_position : ℕ → Bytes → M J (Unit {0})
  handle_position h packet = store_position h (parse_position_packet packet)

  unfoldable pub pass_on : ℕ → Bytes → Option ℕ → M J (Unit {0})
  pass_on h packet none = done
  pass_on h packet (some vid) = do increment_pps; send_to_all o (some h) packet false false

  unfoldable pub relay : ℕ → Client J → Bytes → M J (Unit {0})
  relay h c packet = do vid ← or_throw (sender_vid c packet); pass_on h packet vid

  unfoldable pub pass_position : ℕ → Bytes → Option ℕ → M J (Unit {0})
  pass_position h packet none = done
  pass_position h packet (some vid) = do
    send_to_all o (some h) packet false false
    handle_position h packet

  unfoldable pub position : ℕ → Client J → Bytes → M J (Unit {0})
  position h c packet = do
    increment_pps
    vid ← or_throw (sender_vid c packet)
    pass_position h packet vid

  unfoldable pub ping : ℕ → M J (Unit {0})
  ping h = do
    answered ← respond o h (codes "p") false false
    if answered then update_player o h else disconnect_client h

  unfoldable pub chat : Client J → Bytes → M J (Unit {0})
  chat c packet =
      if is_chat packet
      then (do
        results ←
            trigger o (codes "onChatMessage")
              (int_arg c.id ∷ text_arg c.name ∷ text_arg (chat_message packet) ∷ [])
        if any_of vetoes results
            then done
            else send_to_all o none (codes "C:" ++ c.name ++ codes ": " ++ chat_message packet) true
                true
        trigger o (codes "postChatMessage") (
            bool_arg (not (any_of vetoes results))
            ∷ int_arg c.id
            ∷ text_arg c.name
            ∷ text_arg (chat_message packet)
            ∷ [])
        done)
      else done

  unfoldable pub parse_code : ℕ → ℕ → Client J → Bytes → Bool → M J (Unit {0})
  parse_code code h c packet udp =
      if leb code 89 && leb 86 code
      then relay h c packet
      else if code == b'H'
      then (if udp then done else (do sync_client o h; done))
      else if code == b'p'
      then ping h
      else if code == b'O'
      then (if udp then done else parse_vehicle o h packet)
      else if code == b'C'
      then (if udp then done else chat c packet)
      else if code == b'E'
      then (if udp then done else handle_event c packet)
      else if code == b'N'
      then send_to_all o (some h) packet false true
      else if code == b'Z'
      then position h c packet
      else done

  unfoldable pub parse_from : ℕ → Option (Client J) → Bytes → Bool → M J (Unit {0})
  parse_from h none packet udp = done
  parse_from h (some c) packet udp = parse_code (byte_at 0 packet) h c packet udp

  unfoldable pub parse_packet : ℕ → Bytes → Bool → M J (Unit {0})
  parse_packet h packet udp =
      if is_empty packet then done else (do c ← lock h; parse_from h c packet udp)

  unfoldable pub kick_found : ℕ → Option (Client J) → Bytes → M J (Unit {0})
  kick_found h none reason = done
  kick_found h (some c) reason = client_kick o h reason

  unfoldable pub kick_locked : ℕ → Bytes → M J (Unit {0})
  kick_locked h reason = do c ← lock h; kick_found h c reason

  -- The packet, once its compression is undone.
  unfoldable pub parse_inflated : ℕ → Inflated → Bool → M J (Unit {0})
  parse_inflated h (inflated packet) udp = parse_packet h packet udp
  parse_inflated h invalid_data udp =
      kick_locked h (codes "Sent invalid compressed packet (this is likely a bug on your end)")
  parse_inflated h runtime_error udp =
      kick_locked h (codes "Decompression failed (likely a server-side problem)")
  parse_inflated h out_of_rounds udp = done

  unfoldable pub global_parser : ℕ → Bytes → Bool → M J (Unit {0})
  global_parser h packet udp =
      if starts_with (codes "ABG:") packet
      then parse_inflated h (de_comp o.zlib (drop 4 packet)) udp
      else parse_packet h packet udp

abbrev pub with_member : ℕ → List ℕ → List ℕ
with_member h hs = if any_of (λ j. j == h) hs then hs else h ∷ hs

abbrev pub without_member : ℕ → List ℕ → List ℕ
without_member h [] = []
without_member h (j ∷ hs) = if j == h then hs else j ∷ without_member h hs

unfoldable pub insert_client : {J : Type 0} → ℕ → World J → World J
insert_client h w = record w { members = with_member h w.members }

-- The client's cars are cleared and it leaves the set; the object lives on while a thread holds it.
unfoldable pub remove_client : {J : Type 0} → ℕ → World J → World J
remove_client h w = elim (lookup h w.store) [
  | none ↦ w
  | some _ ↦ record w { store = adjust h clear_cars w.store; members = without_member h w.members }
]

unfoldable pub client_count : {J : Type 0} → World J → ℕ
client_count w = length w.members
