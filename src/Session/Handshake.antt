-- ===== src/Session/Handshake.antt =====
-- `Authentication` of src/TNetwork.cpp as a whole: the version handshake, the request to the
-- backend, what its answer must hold, and then the admission.
pub mod Versions
use beam_mp_server.Base.{
  ℕ, suc, ◌+◌, Bool, true, false, not, ◌&&◌, ◌||◌, List, [], ◌∷◌, ◌++◌, Option, none, some, ltb,
  if◌then◌else◌, length, drop, is_empty, list_eq,
}
use beam_mp_server.Base.Dict.{lookup, insert}
use beam_mp_server.Base.Decimal.{to_string}
use beam_mp_server.Base.Text.{Bytes, codes, find, up_to, starts_with}
use beam_mp_server.Versions.{Version, as_string, is_outdated, version_str_to_ints}
use beam_mp_server.Client.{Client}
use beam_mp_server.World.{Outside, World, M, ok, ◌>>=◌, ◌>>◌, return, done, fetch, modify, or_throw}
use beam_mp_server.Network.{client_kick, tcp_send}
use beam_mp_server.Receive.{tcp_rcv}
use beam_mp_server.Session.{admit}

-- What the handshake depends on: whether the server is still starting, the oldest launcher that is
-- let in, what the array of `VersionStrToInts` holds before it is written, the setting for guests,
-- the backend's reply to a player's key, the server's key and the player's address (`none` where
-- the request cannot be written down), and two more readings of a document.
pub record Handshake (J : Type 0) : Type 0 where
  pub starting : Bool
  pub min_version : Version
  pub memory : Version
  pub allow_guests : Bool
  pub post : Bytes → Bytes → Bytes → Option Bytes
  pub as_bool : J → Option Bool
  pub items : J → Option (List J)

-- The reason to refuse a version packet.
unfoldable pub version_refusal : Version → Version → Bytes → Option Bytes
version_refusal memory min_version packet =
    if ltb 3 (length packet) && starts_with (codes "VC") packet
    then if is_outdated (version_str_to_ints memory (drop 2 packet ++ codes ".0")) min_version
      then some (
          codes "Outdated version, launcher version >="
          ++ as_string min_version
          ++ codes " required to join!")
      else none
    else some (
        codes "Invalid version header: '"
        ++ packet
        ++ codes "' ("
        ++ to_string (length packet)
        ++ codes ")")

unfoldable pub key_refusal : Bytes → Option Bytes
key_refusal packet =
    if is_empty packet
    then some (codes "Connection closed during authentication")
    else if ltb 50 (length packet)
    then some (codes "Invalid Key (too long)!")
    else none

-- `Raw.substr(0, SepIndex)` and `Raw.substr(SepIndex + 1)`; with no colon both are the whole text.
unfoldable pub split_identifier : Bytes → Bytes × Bytes
split_identifier raw = elim (find b':' raw) [
  | none ↦ (raw, raw)
  | some i ↦ (up_to (some i) raw, drop (suc i) raw)
]

unfoldable pub set_identifier : {J : Type 0} → Bytes → Bytes → Client J → Client J
set_identifier key value c = record c { identifiers = insert key value c.identifiers }

-- What the backend says of a player.
pub record Player (J : Type 0) : Type 0 where
  pub username : Bytes
  pub roles : Bytes
  pub guest : Bool
  pub identifiers : List J

unfoldable pub set_player : {J : Type 0} → Player J → Client J → Client J
set_player p c = record c { name = p.username; roles = p.roles; is_guest = p.guest }

abbrev pub all_four :
    {J : Type 0} → Option Bytes → Option Bytes → Option Bool → Option (List J) → Option (Player J)
all_four (some u) (some r) (some g) (some is) =
    some (record { username = u; roles = r; guest = g; identifiers = is })
all_four _ _ _ _ = none

abbrev pub and_then : {A B : Type 0} → Option A → (A → Option B) → Option B
and_then none f = none
and_then (some a) f = f a

module _ {J : Type 0} (o : Outside J) (s : Handshake J) where
  -- `AuthRes` where each of the four members is there with its type. The test of the name's size
  -- is left out: the size of a document that is a text is always 1.
  unfoldable pub player_of : J → Option (Player J)
  player_of doc =
      all_four (and_then (o.json.member (codes "username") doc) o.json.as_string)
        (and_then (o.json.member (codes "roles") doc) o.json.as_string)
        (and_then (o.json.member (codes "guest") doc) s.as_bool)
        (and_then (o.json.member (codes "identifiers") doc) s.items)

  unfoldable pub kick_out : ℕ → Bytes → Bytes → M J (Bool × Bytes)
  kick_out h why stream = do client_kick o h why; return (false, stream)

  -- The loop over the identifiers; `false` is the exception of one that is no text.
  unfoldable pub set_identifiers : ℕ → List J → M J Bool
  set_identifiers h [] = return true
  set_identifiers h (doc ∷ docs) = elim (o.json.as_string doc) [
    | none ↦ return false
    | some raw ↦ do
      modify h (set_identifier (split_identifier raw).0 (split_identifier raw).1)
      set_identifiers h docs
  ]

  unfoldable pub invalid_key : ℕ → Bytes → M J (Bool × Bytes)
  invalid_key h stream = kick_out h (codes "Invalid key! Please restart your game.") stream

  unfoldable pub finish_admission : ℕ → Bytes → M J (Bool × Bytes)
  finish_admission h stream = do joined ← admit o s.allow_guests h; return (joined, stream)

  unfoldable pub accept_player : ℕ → Option (Player J) → Bytes → M J (Bool × Bytes)
  accept_player h none stream = kick_out h (codes "Invalid authentication data!") stream
  accept_player h (some p) stream = do
    modify h (set_player p)
    all ← set_identifiers h p.identifiers
    if all then finish_admission h stream else invalid_key h stream

  unfoldable pub read_reply : ℕ → Option J → Bytes → M J (Bool × Bytes)
  read_reply h none stream = invalid_key h stream
  read_reply h (some doc) stream =
      if o.json.is_object doc || o.json.is_null doc
      then accept_player h (player_of doc) stream
      else invalid_key h stream

  unfoldable pub ask_backend : ℕ → Option Bytes → Bytes → M J (Bool × Bytes)
  ask_backend h none stream = kick_out h (codes "Invalid Key (invalid UTF8 string)!") stream
  ask_backend h (some reply) stream = read_reply h (o.json.parse reply) stream

-- `auth_key` is the setting `General_AuthKey`; `none` is the exception of another type.
module _ {J : Type 0} (o : Outside J) (s : Handshake J) (auth_key : Option Bytes) where
  unfoldable pub with_key : ℕ → Bytes → Option Bytes → Bytes → M J (Bool × Bytes)
  with_key h key (some why) stream = kick_out o s h why stream
  with_key h key none stream = do
    own ← or_throw auth_key
    c ← fetch h
    ip ← or_throw (lookup (codes "ip") c.identifiers)
    ask_backend o s h (s.post key own ip) stream

  unfoldable pub with_version : ℕ → Option Bytes → Bytes → M J (Bool × Bytes)
  with_version h (some why) stream = kick_out o s h why stream
  with_version h none stream = do
    tcp_send o h (codes "A") false
    received ← tcp_rcv o h stream
    with_key h received.0 (key_refusal received.0) received.1

  -- Whether the client `h` joined, and what is left of its stream.
  unfoldable pub authentication : ℕ → Bytes → Bytes → M J (Bool × Bytes)
  authentication h ip stream = do
    modify h (set_identifier (codes "ip") ip)
    if s.starting
        then kick_out o s h (codes "The server is still starting, please try joining again later.")
            stream
        else (do
          received ← tcp_rcv o h stream
          if is_empty received.0
              then kick_out o s h (codes "Connection closed during version handshake") received.1
              else with_version h (version_refusal s.memory s.min_version received.0) received.1)
