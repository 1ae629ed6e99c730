-- ===== src/Console/Tests.antt =====
-- Commands at concrete inputs, and the theorem there.
use beam_mp_server.Base.{◌≡◌, refl, true, false, [], ◌∷◌, ◌++◌, arith}
use beam_mp_server.Base.Text.{codes, find, up_to}
use beam_mp_server.Console.{
  parse_command, split_args, strip_quotes, scan, skip_spaces, concat_args, with_spaces,
  name_compare, string_starts_with, ensure_args_count, ensure_count,
}
use beam_mp_server.Console.Parsing.{print_args, parse_command-print_args}
use beam_mp_server.Base.{none, some}
use beam_mp_server.Base.Dict.{lookup, insert}
use beam_mp_server.Base.Ints.{pos, negsuc}
use beam_mp_server.Settings.{
  Settings, ComposedKey, initial, initial_values, initial_access, get,
  set_console_input_access_mapping, get_console_input_access_mapping, type_index, int_setting,
  general_max_cars, key_eq, composed_eq,
}
use beam_mp_server.Console.SettingsCommand.{
  command_settings, settings_get, settings_set, store, store_as, read_setting, shown, stored,
  refused, unknown_literal, stoi_signed, named,
}
use beam_mp_server.Console.SettingsCommand.RoundTrip.{settings_get-settings_set}

console_tests :
    (parse_command (codes "kick  bob 'bad  words' x")
      ≡ (codes "kick", codes "bob" ∷ codes "bad  words" ∷ codes "x" ∷ []))
    × (parse_command (codes "list") ≡ (codes "list", []))
    × (concat_args (codes "a" ∷ codes "b" ∷ []) ≡ codes "a b")
    × (name_compare (codes "Al") (codes "alice") ≡ true)
    × (string_starts_with (codes "Hello, World") (codes "ello") ≡ false)
    × (ensure_args_count (codes "a" ∷ []) 0 1 ≡ true)
unfolding parse_command split_args strip_quotes scan skip_spaces concat_args with_spaces
    name_compare string_starts_with ensure_args_count ensure_count find up_to
console_tests = (refl, refl, refl, refl, refl, refl)

parse_command-print_args_example :
    parse_command (codes "say" ++ print_args (codes "a b" ∷ codes "c'" ∷ []))
    ≡ (codes "say", codes "a b" ∷ codes "c'" ∷ [])
parse_command-print_args_example =
    parse_command-print_args (codes "say") (codes "a b" ∷ codes "c'" ∷ [])
      (omega arith, (omega arith, (omega arith, tt)))
      (
        ((omega arith, (omega arith, (omega arith, tt))), refl),
        (((omega arith, (omega arith, tt)), refl), tt),
      )

abbrev cars : ComposedKey
cars = named (codes "General") (codes "MaxCars")

abbrev five_cars : Settings
five_cars = record {
  values = insert general_max_cars (int_setting (pos 5)) initial_values;
  access = initial_access;
}

set_cars :
    command_settings (codes "set" ∷ cars.category ∷ cars.key ∷ codes "5" ∷ []) initial
    ≡ (stored cars (int_setting (pos 5)), five_cars)
unfolding command_settings settings_set store store_as read_setting initial initial_values
    initial_access get set_console_input_access_mapping get_console_input_access_mapping type_index
    lookup insert skip_spaces
set_cars = refl

settings_tests :
    (stoi_signed (codes " -12x") ≡ some (negsuc 11))
    × (stoi_signed (codes "2147483648") ≡ none)
    × ((command_settings (codes "get" ∷ codes "General" ∷ codes "AuthKey" ∷ []) initial).0
        ≡ refused)
    × ((command_settings (codes "set" ∷ codes "General" ∷ codes "Debug" ∷ codes "1" ∷ []) initial).0
        ≡ unknown_literal)
unfolding command_settings settings_set settings_get store store_as read_setting initial
    initial_values initial_access get set_console_input_access_mapping
    get_console_input_access_mapping type_index lookup insert skip_spaces
settings_tests = (refl, refl, refl, refl)

settings_get-settings_set_example :
    command_settings (codes "get" ∷ cars.category ∷ cars.key ∷ []) five_cars
    ≡ (shown cars (int_setting (pos 5)), five_cars)
settings_get-settings_set_example =
    settings_get-settings_set cars.category cars.key (codes "5") [] [] initial five_cars cars
      (int_setting (pos 5)) set_cars
