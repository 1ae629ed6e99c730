-- ===== src/Config/Tests.antt =====
-- The configuration at concrete inputs, and the theorems there.
use beam_mp_server.Base.{
  ◌≡◌, refl, Bool, true, [], ◌∷◌, Option, none, some, arith, if◌then◌else◌, list_beq, here, there,
  All,
}
use beam_mp_server.Base.Dict.{lookup, insert}
use beam_mp_server.Base.Ints.{pos, negsuc}
use beam_mp_server.Base.Text.{codes}
use beam_mp_server.App.{text_eq, Status, bad}
use beam_mp_server.Config.{
  Environment, Document, section, toml_int, toml_bool, reads, Read, read_all, try_read_value,
  new_value, env_get, from_env, from_toml, entry_at, general,
}
use beam_mp_server.Config.File.{
  absent, holds, Config, new_config, document_of, flush_section, get_toml, general_written,
  misc_written, parse_from_file, after_reads, flush_to_file, check_key, create_config_file,
}
use beam_mp_server.Config.Words.{wrap, strtol}
use beam_mp_server.Config.Saved.{no_variables}
use beam_mp_server.Config.Reading.{read_all-reads, read_all_types}
use beam_mp_server.Config.RoundTrip.{new_config-document_of, IsRegular, FitsIn-lookup, FitsIn}
use beam_mp_server.Console.{skip_spaces}
use beam_mp_server.Settings.{
  Key, Settings, SettingValue, initial, initial_values, get, set, type_index, key_eq, get_as_string,
  get_as_bool, get_as_int, int_setting, general_port, general_auth_key,
}
use beam_mp_server.Settings.Access.{type_of}

words :
    (wrap (strtol (codes " -5x")) ≡ negsuc 4)
    × (wrap (strtol (codes "2147483648")) ≡ negsuc 2147483647)
    × (wrap (strtol (codes "99999999999999999999")) ≡ negsuc 0)
    × (wrap (strtol (codes "cars")) ≡ pos 0)
unfolding wrap strtol skip_spaces
words = (refl, refl, refl, refl)

-- The variable of the port is set, under a name that the provider chose.
abbrev variables : Environment
variables v =
    if list_beq v (codes "BEAMMP_PROVIDER_PORT_ENV")
    then some (codes "PORT")
    else if list_beq v (codes "PORT")
    then some (codes "4000")
    else none

abbrev some_file : Document
some_file =
    (
      codes "General",
      section (
          (codes "Port", toml_int (pos 5000))
          ∷ (codes "MaxCars", toml_int (pos 3))
          ∷ (codes "AuthKey", toml_bool true)
          ∷ []),
    )
    ∷ []

abbrev after : Settings
after = (read_all variables some_file (reads variables) initial).0

port_read : Read
port_read = general (codes "Port") (codes "PORT") general_port

read_completely : read_all variables some_file (reads variables) initial ≡ (after, true)
unfolding read_all reads try_read_value new_value env_get from_env from_toml entry_at get set
    type_index lookup insert initial initial_values
read_completely = refl

read_all-reads_example : lookup general_port after.values ≡ some (int_setting (pos 4000))
unfolding reads env_get from_env wrap strtol skip_spaces lookup initial initial_values
read_all-reads_example =
    (read_all-reads variables some_file initial after read_completely).0
      (general (codes "Port") (codes "PORT") general_port) (there (there (there (here refl))))

read_all_types_example : type_of general_auth_key after ≡ type_of general_auth_key initial
read_all_types_example = read_all_types variables some_file initial general_auth_key

abbrev status_of : Option Config → Option (Status × Bool)
status_of none = none
status_of (some c) = some (c.status, c.failed)

-- The first start writes the file, and fails as it has no key.
no_key : status_of (new_config no_variables true absent initial) ≡ some (bad, true)
unfolding new_config create_config_file parse_from_file after_reads flush_to_file check_key read_all
    reads try_read_value new_value env_get from_env from_toml entry_at get set type_index lookup
    insert initial initial_values document_of flush_section get_toml general_written misc_written
    get_as_string get_as_bool get_as_int wrap
no_key = refl

abbrev written : Option Document → Document
written none = []
written (some doc) = doc

initial_document : Document
initial_document = written (document_of initial)

initial_written : document_of initial ≡ some initial_document
unfolding initial_document document_of flush_section get_toml general_written misc_written
    get_as_string get_as_bool get_as_int get lookup initial initial_values
initial_written = refl

initial_fit : All (λ (p : Key × SettingValue). FitsIn p.1) initial.values
unfolding initial initial_values
initial_fit = omega arith

initial-IsRegular : IsRegular initial
initial-IsRegular = record {
  types = λ j. refl;
  fit = λ j v e. FitsIn-lookup initial.values j v initial_fit e;
}

new_config-document_of_example :
    (c : Config) × (new_config no_variables true (holds initial_document) initial ≡ some c)
    × ((j : Key) → lookup j c.settings.values ≡ lookup j initial.values)
    × (c.file ≡ holds initial_document)
new_config-document_of_example =
    new_config-document_of initial initial initial_document initial-IsRegular (λ j. refl)
      initial_written
