-- ===== src/Config.antt =====
-- src/TConfig.cpp and src/Env.cpp: how the settings are read from the environment and the
-- configuration file, and written back. A file is the document that toml11 reads from it and writes
-- into it; comments and what is logged are left out.
pub mod Words
pub mod File
pub mod Reading
pub mod Saved
pub mod RoundTrip
mod Tests
use beam_mp_server.Base.{
  ℕ, Bool, true, false, not, ◌&&◌, ◌||◌, List, [], ◌∷◌, Option, none, some, if◌then◌else◌, is_empty,
  list_beq,
}
use beam_mp_server.Base.Dict.{lookup, insert}
use beam_mp_server.Base.Ints.{ℤ}
use beam_mp_server.Base.Text.{Bytes, codes}
use beam_mp_server.App.{Status, starting, good, bad, text_eq}
use beam_mp_server.Config.Words.{wrap, strtol}
use beam_mp_server.Settings.{
  Key, misc_im_scared_of_updates, misc_update_reminder_time, general_description, general_tags,
  general_max_players, general_name, general_map, general_auth_key, general_private, general_ip,
  general_port, general_max_cars, general_log_chat, general_resource_folder, general_debug,
  general_allow_guests, general_information_packet, SettingValue, text_setting, bool_setting,
  int_setting, Settings, get, get_as_string, get_as_bool, get_as_int, set,
}

pub data TomlValue : Type 0 where
  toml_text : Bytes → TomlValue
  toml_int : ℤ → TomlValue
  toml_bool : Bool → TomlValue
  toml_other : TomlValue

-- What stands under a category: a table, or something else.
pub data Section : Type 0 where
  section : List (Bytes × TomlValue) → Section
  other_section : Section

abbrev pub Document : Type 0
Document = List (Bytes × Section)

-- `std::getenv`.
abbrev pub Environment : Type 0
Environment = Bytes → Option Bytes

abbrev pub non_empty : Option Bytes → Option Bytes
non_empty none = none
non_empty (some v) = if is_empty v then none else some v

-- `Env::Get`, and the test in `TryReadValue`: a variable that is empty counts as absent.
unfoldable pub env_get : Environment → Bytes → Option Bytes
env_get getenv name = non_empty (getenv name)

abbrev pub is_true : Bytes → Bool
is_true v = list_beq v (codes "1") || list_beq v (codes "true")

-- The text of a variable as a value of the setting's type.
unfoldable pub from_env : SettingValue → Bytes → SettingValue
from_env (text_setting old) v = text_setting v
from_env (int_setting old) v = int_setting (wrap (strtol v))
from_env (bool_setting old) v = bool_setting (is_true v)

-- A value of the document as one of the setting's type; `none` is a warning.
unfoldable pub from_toml : SettingValue → TomlValue → Option SettingValue
from_toml (text_setting old) (toml_text v) = some (text_setting v)
from_toml (int_setting old) (toml_int v) = some (int_setting (wrap v))
from_toml (bool_setting old) (toml_bool v) = some (bool_setting v)
from_toml old v = none

abbrev pub in_section : Bytes → Option Section → Option (Option TomlValue)
in_section name none = some none
in_section name (some (section m)) = some (lookup name m)
in_section name (some other_section) = none

-- `Table[Category][Key]`: a category that is no table is an exception, and what is absent is empty.
unfoldable pub entry_at : Document → Bytes → Bytes → Option (Option TomlValue)
entry_at doc category name = in_section name (lookup category doc)

pub record Read : Type 0 where
  pub category : Bytes
  pub name : Bytes
  pub variable : Bytes
  pub key : Key

abbrev pub of_entry : SettingValue → Option (Option TomlValue) → Option (Option SettingValue)
of_entry old none = none
of_entry old (some none) = some none
of_entry old (some (some v)) = some (from_toml old v)

-- The value to set, if any: the variable's, or the document's where the variable is absent.
unfoldable pub new_value :
    Environment → Document → Read → SettingValue → Option (Option SettingValue)
new_value getenv doc r old = elim (env_get getenv r.variable) [
  | some v ↦ some (some (from_env old v))
  | none ↦ of_entry old (entry_at doc r.category r.name)
]

abbrev pub set_new : Key → Settings → Option (Option SettingValue) → Option Settings
set_new k s none = none
set_new k s (some none) = some s
set_new k s (some (some v)) = set k v s

abbrev pub read_over :
    Environment → Document → Read → Settings → Option SettingValue → Option Settings
read_over getenv doc r s none = none
read_over getenv doc r s (some old) = set_new r.key s (new_value getenv doc r old)

-- `TryReadValue`; `none` is an exception.
unfoldable pub try_read_value : Environment → Document → Read → Settings → Option Settings
try_read_value getenv doc r s = read_over getenv doc r s (get r.key s)

abbrev pub general : Bytes → Bytes → Key → Read
general name variable k = record {
  category = codes "General";
  name = name;
  variable = variable;
  key = k;
}

abbrev pub misc : Bytes → Bytes → Key → Read
misc name variable k = record { category = codes "Misc"; name = name; variable = variable; key = k }

abbrev pub or_default : Option Bytes → Bytes → Bytes
or_default none d = d
or_default (some v) d = v

-- The calls of `ParseFromFile`, in their order. A provider may name the variables of the port and
-- the address.
unfoldable pub reads : Environment → List Read
reads getenv =
    general (codes "Debug") (codes "BEAMMP_DEBUG") general_debug
    ∷ general (codes "Private") (codes "BEAMMP_PRIVATE") general_private
    ∷ general (codes "InformationPacket") (codes "BEAMMP_INFORMATION_PACKET")
        general_information_packet
    ∷ general (codes "Port")
        (or_default (env_get getenv (codes "BEAMMP_PROVIDER_PORT_ENV")) (codes "BEAMMP_PORT"))
        general_port
    ∷ general (codes "IP")
        (or_default (env_get getenv (codes "BEAMMP_PROVIDER_IP_ENV")) (codes "BEAMMP_IP"))
        general_ip
    ∷ general (codes "MaxCars") (codes "BEAMMP_MAX_CARS") general_max_cars
    ∷ general (codes "MaxPlayers") (codes "BEAMMP_MAX_PLAYERS") general_max_players
    ∷ general (codes "Map") (codes "BEAMMP_MAP") general_map
    ∷ general (codes "Name") (codes "BEAMMP_NAME") general_name
    ∷ general (codes "Description") (codes "BEAMMP_DESCRIPTION") general_description
    ∷ general (codes "Tags") (codes "BEAMMP_TAGS") general_tags
    ∷ general (codes "ResourceFolder") (codes "BEAMMP_RESOURCE_FOLDER") general_resource_folder
    ∷ general (codes "AuthKey") (codes "BEAMMP_AUTH_KEY") general_auth_key
    ∷ general (codes "LogChat") (codes "BEAMMP_LOG_CHAT") general_log_chat
    ∷ general (codes "AllowGuests") (codes "BEAMMP_ALLOW_GUESTS") general_allow_guests
    ∷ misc (codes "ImScaredOfUpdates") (codes "BEAMMP_IM_SCARED_OF_UPDATES")
        misc_im_scared_of_updates
    ∷ misc (codes "UpdateReminderTime") (codes "BEAMMP_UPDATE_REMINDER_TIME")
        misc_update_reminder_time
    ∷ []

-- The settings after the calls, or up to an exception, and whether there was none.
unfoldable pub read_all : Environment → Document → List Read → Settings → Settings × Bool
read_all getenv doc [] s = (s, true)
read_all getenv doc (r ∷ rs) s = elim (try_read_value getenv doc r s) [
  | none ↦ (s, false)
  | some t ↦ read_all getenv doc rs t
]
