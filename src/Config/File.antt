-- ===== src/Config/File.antt =====
-- src/TConfig.cpp: the document that is written, and the life of the configuration file.
use beam_mp_server.Base.{
  Bool, true, false, not, ◌&&◌, List, [], ◌∷◌, Option, none, some, if◌then◌else◌, is_empty,
}
use beam_mp_server.Base.Ints.{ℤ}
use beam_mp_server.Base.Text.{Bytes, codes}
use beam_mp_server.App.{Status, starting, good, bad, text_eq}
use beam_mp_server.Settings.{
  Key, misc_im_scared_of_updates, misc_update_reminder_time, general_description, general_tags,
  general_max_players, general_name, general_map, general_auth_key, general_private, general_ip,
  general_port, general_max_cars, general_log_chat, general_resource_folder, general_debug,
  general_allow_guests, general_information_packet, Settings, get_as_string, get_as_bool,
  get_as_int,
}
use beam_mp_server.Config.{
  Document, Environment, TomlValue, env_get, is_true, read_all, reads, section, toml_bool, toml_int,
  toml_text,
}

-- How `FlushToFile` reads a setting; a setting of another type is an exception.
pub data Getter : Type 0 where
  as_string as_bool as_int : Getter

abbrev pub text_of : Option Bytes → Option TomlValue
text_of none = none
text_of (some v) = some (toml_text v)

abbrev pub bool_of : Option Bool → Option TomlValue
bool_of none = none
bool_of (some v) = some (toml_bool v)

abbrev pub int_of : Option ℤ → Option TomlValue
int_of none = none
int_of (some v) = some (toml_int v)

unfoldable pub get_toml : Getter → Key → Settings → Option TomlValue
get_toml as_string k s = text_of (get_as_string k s)
get_toml as_bool k s = bool_of (get_as_bool k s)
get_toml as_int k s = int_of (get_as_int k s)

abbrev pub put :
    Bytes → Option TomlValue → Option (List (Bytes × TomlValue)) → Option (List (Bytes × TomlValue))
put name (some v) (some m) = some ((name, v) ∷ m)
put name v m = none

abbrev pub Written : Type 0
Written = List (Bytes × (Getter × Key))

unfoldable pub flush_section : Written → Settings → Option (List (Bytes × TomlValue))
flush_section [] s = some []
flush_section ((name, (g, k)) ∷ ws) s = put name (get_toml g k s) (flush_section ws s)

unfoldable pub general_written : Written
general_written =
    (codes "AuthKey", (as_string, general_auth_key))
    ∷ (codes "LogChat", (as_bool, general_log_chat))
    ∷ (codes "Debug", (as_bool, general_debug))
    ∷ (codes "Private", (as_bool, general_private))
    ∷ (codes "InformationPacket", (as_bool, general_information_packet))
    ∷ (codes "AllowGuests", (as_bool, general_allow_guests))
    ∷ (codes "IP", (as_string, general_ip))
    ∷ (codes "Port", (as_int, general_port))
    ∷ (codes "Name", (as_string, general_name))
    ∷ (codes "Tags", (as_string, general_tags))
    ∷ (codes "MaxCars", (as_int, general_max_cars))
    ∷ (codes "MaxPlayers", (as_int, general_max_players))
    ∷ (codes "Map", (as_string, general_map))
    ∷ (codes "Description", (as_string, general_description))
    ∷ (codes "ResourceFolder", (as_string, general_resource_folder))
    ∷ []

unfoldable pub misc_written : Written
misc_written =
    (codes "ImScaredOfUpdates", (as_bool, misc_im_scared_of_updates))
    ∷ (codes "UpdateReminderTime", (as_string, misc_update_reminder_time))
    ∷ []

abbrev pub two_sections :
    Option (List (Bytes × TomlValue)) → Option (List (Bytes × TomlValue)) → Option Document
two_sections (some g) (some m) =
    some ((codes "General", section g) ∷ (codes "Misc", section m) ∷ [])
two_sections g m = none

-- The document that `FlushToFile` builds; `none` is an exception.
unfoldable pub document_of : Settings → Option Document
document_of s = two_sections (flush_section general_written s) (flush_section misc_written s)

-- The file is absent, or holds what does not parse, or a document.
pub data ConfigFile : Type 0 where
  absent unreadable : ConfigFile
  holds : Document → ConfigFile

pub record Config : Type 0 where
  pub settings : Settings
  pub file : ConfigFile
  pub status : Status
  pub failed : Bool
  pub disabled : Bool

-- `FlushToFile`, where `writable` says whether the file can be opened; `none` is an exception.
unfoldable pub flush_to_file : Bool → Config → Option Config
flush_to_file writable c = elim (document_of c.settings) [
  | none ↦ none
  | some doc ↦ if writable then some (record c { file = holds doc }) else none
]

unfoldable pub create_config_file : Bool → Config → Option Config
create_config_file writable c = if c.disabled then some c else flush_to_file writable c

abbrev pub fail : Config → Config
fail c = record c { failed = true; status = bad }

-- The end of `ParseFromFile`: whether there is a key.
unfoldable pub check_key : Config → Option Config
check_key c = elim (get_as_string general_auth_key c.settings) [
  | none ↦ none
  | some key ↦ some (if is_empty key then fail c else record c { status = good })
]

abbrev pub toml_parse : Bool → ConfigFile → Option Document
toml_parse true file = some []
toml_parse false absent = none
toml_parse false unreadable = none
toml_parse false (holds doc) = some doc

abbrev pub and_check : Option Config → Option Config
and_check none = none
and_check (some c) = check_key c

-- What follows the calls of `TryReadValue`.
unfoldable pub after_reads : Bool → Config → Settings × Bool → Option Config
after_reads writable c (s, false) = some (fail (record c { settings = s }))
after_reads writable c (s, true) =
    let read = record c { settings = s } in
    if c.disabled then check_key read else and_check (flush_to_file writable read)

unfoldable pub parse_from_file : Environment → Bool → Config → Option Config
parse_from_file getenv writable c = elim (toml_parse c.disabled c.file) [
  | none ↦ some (fail c)
  | some doc ↦ after_reads writable c (read_all getenv doc (reads getenv) c.settings)
]

abbrev pub is_disabling : Option Bytes → Bool
is_disabling none = false
is_disabling (some v) = is_true v

abbrev pub is_absent : ConfigFile → Bool
is_absent absent = true
is_absent _ = false

abbrev pub and_parse : Environment → Bool → Option Config → Option Config
and_parse getenv writable none = none
and_parse getenv writable (some c) = parse_from_file getenv writable c

-- The constructor of `TConfig`; `none` is an exception that leaves it.
unfoldable pub new_config : Environment → Bool → ConfigFile → Settings → Option Config
new_config getenv writable file s =
    let disabled = is_disabling (env_get getenv (codes "BEAMMP_PROVIDER_DISABLE_CONFIG")) in
    let c : Config = record {
      settings = s;
      file = file;
      status = starting;
      failed = false;
      disabled = disabled;
    } in
    and_parse getenv writable
      (if not disabled && is_absent file then create_config_file writable c else some c)
