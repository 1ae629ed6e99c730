-- ===== src/Api.antt =====
-- src/LuaAPI.cpp and the player functions of src/TLuaEngine.cpp: what plugins ask of the server
-- about players and have it send to them. Log output is left out.
pub mod Config
pub mod Laws
use beam_mp_server.Base.{
  ℕ, suc, ◌+◌, Bool, true, false, not, ◌&&◌, ◌||◌, List, [], ◌∷◌, ◌++◌, Option, none, some, ◌==◌,
  if◌then◌else◌, length, is_empty, drop, list_beq, nat_eq,
}
use beam_mp_server.Base.Dict.{lookup, insert}
use beam_mp_server.Base.Ints.{ℤ, pos, negsuc}
use beam_mp_server.Base.Decimal.{to_string}
use beam_mp_server.Base.Text.{Bytes, codes, substr}
use beam_mp_server.Client.{
  Client, Vehicle, get_car_data, delete_car, get_car_position_raw, or_empty,
}
use beam_mp_server.World.{
  Outside, World, M, ok, ◌>>=◌, ◌>>◌, return, done, ask, fetch, modify, trigger, print_int, int_arg,
}
use beam_mp_server.Network.{client_kick, respond, send_to_all, data_as_packet}

abbrev pub same_int : ℤ → ℤ → Bool
same_int (pos m) (pos n) = m == n
same_int (negsuc m) (negsuc n) = m == n
same_int (pos m) (negsuc n) = false
same_int (negsuc m) (pos n) = false

-- Whether the call worked, and what went wrong.
abbrev pub Report : Type 0
Report = Bool × Bytes

abbrev pub invalid_player : Report
invalid_player = (false, codes "Invalid Player ID")

-- Who is meant by -1.
abbrev pub is_everyone : ℤ → Bool
is_everyone id = same_int id (negsuc 0)

module _ {J : Type 0} where
  -- The pass of `GetClient` over the set, and the client that it found.
  unfoldable pub find_client : ℤ → List ℕ → List (ℕ × Client J) → Option (ℕ × Client J)
  find_client id [] store = none
  find_client id (h ∷ hs) store =
      let rest = find_client id hs store in
      elim (lookup h store) [
        | none ↦ rest
        | some c ↦ if same_int c.id id then some (h, c) else rest
      ]

  unfoldable pub get_client : ℤ → World J → Option (ℕ × Client J)
  get_client id w = find_client id w.members w.store

  -- The pass of `Lua_GetPlayerIDByName`.
  unfoldable pub id_by_name : Bytes → List ℕ → List (ℕ × Client J) → ℤ
  id_by_name name [] store = negsuc 0
  id_by_name name (h ∷ hs) store =
      let rest = id_by_name name hs store in
      elim (lookup h store) [ none ↦ rest | some c ↦ if list_beq c.name name then c.id else rest ]

  unfoldable pub get_player_id_by_name : Bytes → World J → ℤ
  get_player_id_by_name name w = id_by_name name w.members w.store

  unfoldable pub get_player_name : ℤ → World J → Bytes
  get_player_name id w = elim (get_client id w) [ none ↦ [] | some found ↦ found.1.name ]

  unfoldable pub get_player_role : ℤ → World J → Option Bytes
  get_player_role id w = elim (get_client id w) [ none ↦ none | some found ↦ some found.1.roles ]

  -- `nil` for no such player, and for one without identifiers.
  unfoldable pub get_player_identifiers : ℤ → World J → Option (List (Bytes × Bytes))
  get_player_identifiers id w = elim (get_client id w) [
    | none ↦ none
    | some found ↦ if is_empty found.1.identifiers then none else some found.1.identifiers
  ]

  unfoldable pub is_player_connected : ℤ → World J → Bool
  is_player_connected id w = elim (get_client id w) [
    | none ↦ false
    | some found ↦ found.1.is_udp_connected
  ]

  unfoldable pub is_player_guest : ℤ → World J → Bool
  is_player_guest id w = elim (get_client id w) [ none ↦ false | some found ↦ found.1.is_guest ]

module _ {J : Type 0} (o : Outside J) where
  unfoldable pub send_to_everyone : Bytes → M J Report
  send_to_everyone packet = do send_to_all o none packet true true; return (true, [])

  unfoldable pub trigger_on : ℕ → Client J → Bytes → M J Report
  trigger_on h c packet =
      if not c.is_syncing && not c.is_synced
      then return (false, codes "Player hasn't joined yet")
      else (do
        sent ← respond o h packet true false
        if sent then return (true, []) else (do
          client_kick o h (codes "Disconnected after failing to receive packets")
          return (false, codes "Respond failed, dropping client")))

  unfoldable pub trigger_found : Option (ℕ × Client J) → Bytes → M J Report
  trigger_found none packet = return invalid_player
  trigger_found (some (h, c)) packet = trigger_on h c packet

  unfoldable pub trigger_client_event : ℤ → Bytes → Bytes → M J Report
  trigger_client_event id name payload =
      let packet = codes "E:" ++ name ++ codes ":" ++ payload in
      if is_everyone id
      then send_to_everyone packet
      else (do found ← ask (get_client id); trigger_found found packet)

  unfoldable pub drop_found : Option (ℕ × Client J) → Option Bytes → M J Report
  drop_found none why = return (false, codes "Player does not exist")
  drop_found (some (h, c)) none = do client_kick o h (codes "No reason"); return (true, [])
  drop_found (some (h, c)) (some why) = do client_kick o h why; return (true, [])

  unfoldable pub drop_player : ℤ → Option Bytes → M J Report
  drop_player id why = do found ← ask (get_client id); drop_found found why

  -- A chat message counts as sent whatever `Respond` says.
  unfoldable pub chat_found : Option (ℕ × Client J) → Bytes → M J Report
  chat_found none packet = return invalid_player
  chat_found (some (h, c)) packet =
      if not c.is_synced
      then return (false, codes "Player still syncing data")
      else (do respond o h packet true false; return (true, []))

  unfoldable pub send_chat_message : ℤ → Bytes → M J Report
  send_chat_message id message =
      let packet = codes "C:Server: " ++ message in
      if is_everyone id
      then send_to_everyone packet
      else (do found ← ask (get_client id); chat_found found packet)

  -- What a notification and a dialog have in common: the failure is noted in the text, and the
  -- flag is set to true after it all the same.
  unfoldable pub notify_found : Option (ℕ × Client J) → Bytes → M J Report
  notify_found none packet = return invalid_player
  notify_found (some (h, c)) packet =
      if not c.is_synced then return (false, codes "Player is not synced yet") else (do
        sent ← respond o h packet true false
        return (true, if sent then [] else codes "Failed to send packet"))

  unfoldable pub send_notification : ℤ → Bytes → Bytes → Bytes → M J Report
  send_notification id message icon category =
      let packet = codes "n" ++ category ++ codes ":" ++ icon ++ codes ":" ++ message in
      if is_everyone id
      then send_to_everyone packet
      else (do found ← ask (get_client id); notify_found found packet)

  -- The dialog's document is the argument.
  unfoldable pub confirmation_dialog : ℤ → J → M J Report
  confirmation_dialog id body =
      let packet = codes "D" ++ o.json.dump body in
      if is_everyone id
      then send_to_everyone packet
      else (do found ← ask (get_client id); notify_found found packet)

  -- `GetCarData(VID) != null` for the document that it found.
  abbrev pub has_car : Option J → Bool
  has_car none = false
  has_car (some doc) = not (o.json.is_null doc)

  unfoldable pub destroy : ℤ → ℕ → ℕ → Bool → M J Report
  destroy pid vid h false = return (false, codes "Vehicle does not exist")
  destroy pid vid h true = do
    trigger o (codes "onVehicleDeleted") (int_arg pid ∷ int_arg (pos vid) ∷ [])
    send_to_all o none (codes "Od:" ++ print_int pid ++ codes "-" ++ to_string vid) true true
    modify h (delete_car vid)
    return (true, [])

  -- No vehicle has a negative id.
  unfoldable pub remove_found : ℤ → ℤ → Option (ℕ × Client J) → M J Report
  remove_found pid vid none = return invalid_player
  remove_found pid (negsuc vid) (some (h, c)) = return (false, codes "Vehicle does not exist")
  remove_found pid (pos vid) (some (h, c)) = do
    modify h (λ c. (get_car_data vid c).1)
    destroy pid vid h (has_car (get_car_data vid c).0)

  unfoldable pub remove_vehicle : ℤ → ℤ → M J Report
  remove_vehicle pid vid = do found ← ask (get_client pid); remove_found pid vid found
