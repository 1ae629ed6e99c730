-- ===== src/Heartbeat.antt =====
-- src/THeartbeatThread.cpp: what the server tells the backend of itself, and one round of the loop
-- that does so. Times are in nanoseconds; the reading of the reminder's time, which goes through a
-- `float`, is a parameter, as are the dump of a document and the backend.
pub mod Pace
pub mod Secrecy
mod Tests
use beam_mp_server.Base.{
  ℕ, ◌+◌, ◌-◌, ◌*◌, Bool, true, false, not, ◌&&◌, ◌||◌, List, [], ◌∷◌, ◌++◌, Option, none, some,
  ltb, ◌==◌, if◌then◌else◌, length, list_beq, nat_eq,
}
use beam_mp_server.Base.Attempt.{◌>>=◌}
use beam_mp_server.Base.Dict.{lookup}
use beam_mp_server.Base.Decimal.{to_string}
use beam_mp_server.Base.Ints.{ℤ}
use beam_mp_server.Base.Text.{Bytes, codes}
use beam_mp_server.App.{
  App, good, get_backend_urls_in_order, server_version, set_subsystem_status, check_for_updates,
}
use beam_mp_server.Client.{Client}
use beam_mp_server.Settings.{
  Settings, get_as_string, get_as_bool, get_as_int, general_max_players, general_port, general_map,
  general_private, general_name, general_tags, general_allow_guests, general_description,
  general_auth_key, misc_im_scared_of_updates, misc_update_reminder_time,
}
use beam_mp_server.Versions.{Version, as_string}
use beam_mp_server.World.{Json, World, print_int}

-- What `TResourceManager` counted when it was made.
pub record ModTotals : Type 0 where
  pub trimmed_list : Bytes
  pub max_mod_size : ℕ
  pub mods_loaded : ℕ

abbrev pub flag : Bool → Bytes
flag true = codes "true"
flag false = codes "false"

-- The names, each with a semicolon.
unfoldable pub get_players : {J : Type 0} → List ℕ → List (ℕ × Client J) → Bytes
get_players [] store = []
get_players (h ∷ hs) store =
    let rest = get_players hs store in
    elim (lookup h store) [ none ↦ rest | some c ↦ c.name ++ (codes ";" ++ rest) ]

abbrev pub Call : Type 0
Call = List (Bytes × Bytes)

unfoldable pub public_call : {J : Type 0} → Version → ModTotals → World J → Settings → Option Call
public_call client_minimum mods w s = do
  max_players ← get_as_int general_max_players s
  port ← get_as_int general_port s
  map ← get_as_string general_map s
  private ← get_as_bool general_private s
  name ← get_as_string general_name s
  tags ← get_as_string general_tags s
  guests ← get_as_bool general_allow_guests s
  desc ← get_as_string general_description s
  some (
      (codes "players", to_string (length w.members))
      ∷ (codes "maxplayers", print_int max_players)
      ∷ (codes "port", print_int port)
      ∷ (codes "map", map)
      ∷ (codes "private", flag private)
      ∷ (codes "version", as_string server_version)
      ∷ (codes "clientversion", as_string client_minimum)
      ∷ (codes "name", name)
      ∷ (codes "tags", tags)
      ∷ (codes "guests", flag guests)
      ∷ (codes "modlist", mods.trimmed_list)
      ∷ (codes "modstotalsize", to_string mods.max_mod_size)
      ∷ (codes "modstotal", to_string mods.mods_loaded)
      ∷ (codes "playerslist", get_players w.members w.store)
      ∷ (codes "desc", desc)
      ∷ [])

-- What the rounds keep: the statics of the loop, and `lastCall`.
pub record Heartbeat : Type 0 where
  pub last : Bytes
  pub last_normal_update_time : ℕ
  pub last_update_reminder_time : ℕ
  pub is_auth : Bool
  pub last_call : Bytes

-- What a round finds: the time, a later time, the players, the settings and what the backend
-- answers, with the response's code.
pub record Tick (J : Type 0) : Type 0 where
  pub now : ℕ
  pub later : ℕ
  pub world : World J
  pub settings : Settings
  pub post : Bytes → Bytes → Bytes × ℕ
  pub http_get : Bytes → Bytes

abbrev pub second : ℕ
second = 1000000000

abbrev pub is_authenticating : Bytes → Bool
is_authenticating status = list_beq status (codes "2000") || list_beq status (codes "200")

unfoldable pub mark_good {ℓ} : {H : Type ℓ} → Bool → App H → App H
mark_good good_now a = if good_now then set_subsystem_status (codes "Heartbeat") good a else a

unfoldable pub remind {ℓ} :
    {J : Type 0} {H : Type ℓ} → Version → Bool → Tick J → Heartbeat × App H → Heartbeat × App H
remind memory is_due t (hb, a) =
    if is_due
    then (record hb { last_update_reminder_time = t.later }, check_for_updates memory t.http_get a)
    else (hb, a)

-- `lastCall` is set before the key is put in; `none` is an exception.
unfoldable pub keyed_call :
    (Call → Bytes) → Option Call → Option Bytes → Heartbeat → Option Bytes × Heartbeat
keyed_call dump none key hb = (none, hb)
keyed_call dump (some call) none hb = (none, record hb { last_call = dump call })
keyed_call dump (some call) (some key) hb =
    (some (dump (call ++ (codes "uuid", key) ∷ [])), record hb { last_call = dump call })

-- The body of a heartbeat.
unfoldable pub generate_call :
    {J : Type 0}
    → (Call → Bytes)
    → Version
    → ModTotals
    → World J
    → Settings
    → Heartbeat
    → Option Bytes × Heartbeat
generate_call dump client_minimum mods w s hb =
    keyed_call dump (public_call client_minimum mods w s) (get_as_string general_auth_key s) hb

module _ {J : Type 0} (json : Json J) (dump : Call → Bytes) where
  abbrev pub if_object : Option J → ℕ → Option J
  if_object none code = none
  if_object (some doc) code = if json.is_object doc && code == 200 then some doc else none

  -- The answer of the first backend that gives one.
  unfoldable pub post_heartbeat : (Bytes → Bytes → Bytes × ℕ) → Bytes → List Bytes → Option J
  post_heartbeat post body [] = none
  post_heartbeat post body (url ∷ urls) =
      let reply = post (url ++ codes "/heartbeat") body in
      let rest = post_heartbeat post body urls in
      elim (if_object (json.parse reply.0) reply.1) [ none ↦ rest | some doc ↦ some doc ]

  -- The status, if all three members are there and are texts.
  unfoldable pub status_of : J → Option Bytes
  status_of doc = do
    status ← (json.member (codes "status") doc >>= json.as_string)
    code ← (json.member (codes "code") doc >>= json.as_string)
    message ← (json.member (codes "msg") doc >>= json.as_string)
    some status

  abbrev pub accepts : Option Bytes → Bool
  accepts none = false
  accepts (some status) = is_authenticating status

  module _ {ℓ} {H : Type ℓ} where
    -- The rest of a round that sends.
    unfoldable pub after_post :
        Version → ℕ → Tick J → Bool → Bool → Option J → Heartbeat × App H → Heartbeat × App H
    after_post memory passed t private scared reply (hb, a) =
        let auth = hb.is_auth || (not private && accepts (reply >>= status_of)) in
        remind memory (not scared && ltb passed (t.now - hb.last_update_reminder_time)) t
          (record hb { is_auth = auth }, mark_good (auth || private) a)

    -- A heartbeat, or the wait for one: its time, if it is sent.
    unfoldable pub send_or_wait :
        Version
        → ℕ
        → Tick J
        → Bool
        → Bytes
        → Heartbeat × App H
        → Option (Option ℕ × (Heartbeat × App H))
    send_or_wait memory reminder t private body (hb, a) =
        let threshold = if list_beq hb.last body then 30 else 5 in
        if ltb (t.now - hb.last_normal_update_time) (threshold * second)
        then some (none, (hb, a))
        else (do
          scared ← get_as_bool misc_im_scared_of_updates t.settings
          some (
            some t.now,
            after_post memory reminder t private scared
                (post_heartbeat t.post body get_backend_urls_in_order)
                (record hb { last = body; last_normal_update_time = t.now }, a),
          ))

    -- A round; `none` is an exception.
    unfoldable pub heartbeat_round :
        (Bytes → ℕ)
        → Version
        → Version
        → ModTotals
        → Tick J
        → Heartbeat × App H
        → Option (Option ℕ × (Heartbeat × App H))
    heartbeat_round time_from_string memory client_minimum mods t (hb, a) = do
      reminder ← get_as_string misc_update_reminder_time t.settings
      let called = generate_call dump client_minimum mods t.world t.settings hb
      body ← called.0
      private ← get_as_bool general_private t.settings
      send_or_wait memory (time_from_string reminder) t private body (called.1, a)
