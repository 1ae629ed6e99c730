-- ===== src/Session.antt =====
-- A player's connection from its authentication to its end, in src/TNetwork.cpp: `Authentication`
-- from the backend's answer on, `OnConnect`, `SyncResources`, `TCPClient` and `OnDisconnect`.
pub mod Admission
pub mod Handshake
pub mod Identify
pub mod Connection
use beam_mp_server.Base.{
  ℕ, zero, suc, ◌+◌, ◌-◌, ◌^◌, Bool, true, false, not, ◌&&◌, ◌||◌, List, [], ◌∷◌, ◌++◌, map, Option,
  none, some, ltb, ◌==◌, if◌then◌else◌, length, any_of, is_empty, list_beq, nat_eq,
}
use beam_mp_server.Base.Dict.{lookup}
use beam_mp_server.Base.Ints.{ℤ, pos, negsuc}
use beam_mp_server.Base.Decimal.{to_string}
use beam_mp_server.Base.Text.{Bytes, codes}
use beam_mp_server.OpenId.{open_id}
use beam_mp_server.Client.{Client, Vehicle, is_disconnected}
use beam_mp_server.World.{
  Outside, World, M, ok, LuaResult, LuaValue, int_value, text_value, other_value, ◌>>=◌, ◌>>◌,
  return, done, ask, fetch, lock, modify, until, trigger, print_int, Arg, int_arg, text_arg,
  bool_arg, map_arg,
}
use beam_mp_server.Network.{client_kick, disconnect_client, respond, send_to_all, tcp_send}
use beam_mp_server.Server.{client_count, global_parser, insert_client, remove_client}
use beam_mp_server.Receive.{tcp_rcv}
use beam_mp_server.Download.{Files, parse}

-- `NotAllowed` and `BypassLimit`: the loop over the results of `onPlayerAuth`, which ends at a 1.
unfoldable pub verdict : Bool → List LuaResult → Bool × Bool
verdict bypass [] = (false, bypass)
verdict bypass (r ∷ rs) =
    let next = verdict true rs in
    let same = verdict bypass rs in
    elim r.value [
      | int_value (pos n) ↦
          if r.error then same else if n == 1 then (true, bypass) else if n == 2 then next else same
      | _ ↦ same
    ]

-- The first text that a handler gave as its reason.
unfoldable pub handler_reason : List LuaResult → Option Bytes
handler_reason [] = none
handler_reason (r ∷ rs) =
    let rest = handler_reason rs in
    elim r.value [ text_value s ↦ if r.error then rest else some s | _ ↦ rest ]

-- What admission depends on besides the handlers: the setting for guests, the number of clients
-- that have joined, and the setting for players.
pub record House : Type 0 where
  pub allow_guests : Bool
  pub client_count : ℕ
  pub max_players : ℕ

pub data Decision : Type 0 where
  admitted : Decision
  refused : Bytes → Decision

abbrev pub no_guests : Bytes
no_guests = codes "No guests are allowed on this server! To join, sign up at: forum.beammp.com."

-- The reason that stands at the end: a handler's, or the guests', or the full server's.
unfoldable pub full_reason : House → Bool → Bool → Option Bytes
full_reason house not_allowed bypass =
    if not not_allowed && not (ltb house.client_count house.max_players) && not bypass
    then some (codes "Server full!")
    else none

unfoldable pub reason : House → Bool → List LuaResult → Option Bytes
reason house is_guest results = elim (handler_reason results) [
  | some s ↦ some s
  | none ↦
      if not house.allow_guests && is_guest
      then some no_guests
      else full_reason house (verdict false results).0 (verdict false results).1
]

unfoldable pub decide : House → Bool → List LuaResult → Decision
decide house is_guest results = elim (reason house is_guest results) [
  | some s ↦ refused s
  | none ↦
      if (verdict false results).0
      then refused (codes "you are not allowed on the server!")
      else admitted
]

-- `Reason` in the event that follows: empty where a handler gave only a 1.
abbrev pub or_no_reason : Option Bytes → Bytes
or_no_reason none = []
or_no_reason (some s) = s

abbrev pub is_refused : Decision → Bool
is_refused admitted = false
is_refused (refused s) = true

abbrev pub same_player : {J : Type 0} → Client J → Client J → Bool
same_player a b =
    list_beq a.name b.name && ((a.is_guest && b.is_guest) || (not a.is_guest && not b.is_guest))

-- The ids of the clients that are in the set and alive.
unfoldable pub ids_in : {J : Type 0} → List ℕ → List (ℕ × Client J) → List ℤ
ids_in [] store = []
ids_in (h ∷ hs) store =
    let rest = ids_in hs store in elim (lookup h store) [ none ↦ rest | some c ↦ c.id ∷ rest ]

module _ {J : Type 0} (o : Outside J) (allow_guests : Bool) where
  -- The pass that disconnects a client of the same name, if there is one; it ends at the first.
  unfoldable pub stale : Client J → ℕ → Option (Client J) → M J Bool
  stale c h none = return false
  stale c h (some other) =
      if same_player other c then (do disconnect_client h; return true) else return false

  unfoldable pub disconnect_stale : Client J → M J Bool
  disconnect_stale c = do
    members ← ask (λ w. w.members)
    until members (λ h. do other ← lock h; stale c h other)

  abbrev pub auth_args : Client J → List Arg
  auth_args c =
      text_arg c.name ∷ text_arg c.roles ∷ bool_arg c.is_guest ∷ map_arg c.identifiers ∷ []

  abbrev pub house_of : World J → House
  house_of w = record {
    allow_guests = allow_guests;
    client_count = length w.members;
    max_players = elim o.max_players [ pos n ↦ n | negsuc n ↦ 2 ^ 64 - 1 - n ];
  }

  unfoldable pub kick_refused : ℕ → Decision → M J (Unit {0})
  kick_refused h admitted = done
  kick_refused h (refused s) = client_kick o h s

  -- The client `h`, whose name, roles and identifiers the backend has given; whether it joined.
  unfoldable pub admit : ℕ → M J Bool
  admit h = do
    c ← fetch h
    disconnect_stale c
    results ← trigger o (codes "onPlayerAuth") (auth_args c)
    house ← ask house_of
    kick_refused h (decide house c.is_guest results)
    trigger o (codes "postPlayerAuth") (
        bool_arg (is_refused (decide house c.is_guest results))
        ∷ text_arg (or_no_reason (reason house c.is_guest results))
        ∷ auth_args c)
    if is_refused (decide house c.is_guest results)
        then return false
        else (do (λ w. (ok tt, insert_client h w)); return true)

module _ {J : Type 0} (o : Outside J) (files : Files) where
  -- `SyncResources`, with one round of its loop for a packet of the stream. The fuel is the
  -- stream's size, and each round but the last takes a packet.
  unfoldable pub sync_rounds : ℕ → ℕ → Bytes → M J Bytes
  sync_rounds zero h stream = return stream
  sync_rounds (suc fuel) h stream = do
    c ← fetch h
    if is_disconnected c then return stream else (do
      received ← tcp_rcv o h stream
      if is_empty received.0
          then (do disconnect_client h; return received.1)
          else if list_beq received.0 (codes "Done")
          then return received.1
          else (do parse o files h received.0; sync_rounds fuel h received.1))

  unfoldable pub sync_resources : ℕ → Bytes → M J Bytes
  sync_resources h stream = do
    c ← fetch h
    tcp_send o h (codes "P" ++ print_int c.id) false
    sync_rounds (suc (length stream)) h stream

  -- What follows the sync: the magic bytes, unless there are none, and the map.
  unfoldable pub send_magic : ℕ → Option Bytes → M J (Unit {0})
  send_magic h none = done
  send_magic h (some magic) = do
    modify h (λ c. record c { magic = magic })
    respond o h (codes "U" ++ magic) true false
    respond o h (codes "M" ++ o.map) true false
    c ← fetch h
    trigger o (codes "onPlayerJoining") (int_arg c.id ∷ [])
    done

  unfoldable pub on_connect : Option Bytes → ℕ → Bytes → M J Bytes
  on_connect magic h stream = do
    new_id ← ask (λ w. open_id (ids_in w.members w.store))
    modify h (λ c. record c { id = pos new_id })
    trigger o (codes "onPlayerConnecting") (int_arg (pos new_id) ∷ [])
    rest ← sync_resources h stream
    c ← fetch h
    if is_disconnected c then done else send_magic h magic
    return rest

module _ {J : Type 0} (o : Outside J) where
  -- The announcement that one vehicle of a client that left is gone.
  unfoldable pub drop_vehicle : ℕ → ℤ → Vehicle J → M J Bool
  drop_vehicle h ident v = do
    trigger o (codes "onVehicleDeleted") (int_arg ident ∷ int_arg (pos v.id) ∷ [])
    send_to_all o (some h) (codes "Od:" ++ print_int ident ++ codes "-" ++ to_string v.id) false
        true
    return false

  unfoldable pub leave : ℕ → Client J → M J (Unit {0})
  leave h c = do
    until c.vehicles (drop_vehicle h c.id)
    send_to_all o (some h) (codes "L" ++ c.name ++ codes " left the server!") false true
    trigger o (codes "onPlayerDisconnect") (int_arg c.id ∷ [])
    disconnect_client h
    (λ w. (ok tt, remove_client h w))

  unfoldable pub leave_found : ℕ → Option (Client J) → M J (Unit {0})
  leave_found h none = done
  leave_found h (some c) = leave h c

  unfoldable pub on_disconnect : ℕ → M J (Unit {0})
  on_disconnect h = do c ← lock h; leave_found h c
