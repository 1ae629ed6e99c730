-- ===== src/Api/Config.antt =====
-- `MP.Set` and `MP.Get` of src/LuaAPI.cpp: the settings that plugins may change, by number.
use beam_mp_server.Base.{ℕ, ◌==◌, ◌≡◌, Option, none, some, if◌then◌else◌, ◌⊎◌}
use beam_mp_server.Base.Ints.{pos}
use beam_mp_server.Settings.{
  Key, general_debug, general_private, general_max_cars, general_max_players, general_map,
  general_name, general_description, general_information_packet, SettingValue, int_setting,
  Settings, get, set, type_index, same_key,
}

-- The setting with a number, and the `type_index` of what it takes.
unfoldable pub config_key : ℕ → Option (Key × ℕ)
config_key id =
    if id == 0
    then some (general_debug, 1)
    else if id == 1
    then some (general_private, 1)
    else if id == 2
    then some (general_max_cars, 2)
    else if id == 3
    then some (general_max_players, 2)
    else if id == 4
    then some (general_map, 0)
    else if id == 5
    then some (general_name, 0)
    else if id == 6
    then some (general_description, 0)
    else if id == 7
    then some (general_information_packet, 1)
    else none

-- `Set`: another number, or a value of another type, changes nothing.
abbrev pub set_at : Option (Key × ℕ) → SettingValue → Settings → Option Settings
set_at none v s = some s
set_at (some (k, type)) v s = if type_index v == type then set k v s else some s

unfoldable pub set_config : ℕ → SettingValue → Settings → Option Settings
set_config id v s = set_at (config_key id) v s

abbrev pub get_at : Option (Key × ℕ) → Settings → Option SettingValue
get_at none s = some (int_setting (pos 0))
get_at (some (k, type)) s = get k s

unfoldable pub get_config : ℕ → Settings → Option SettingValue
get_config id s = get_at (config_key id) s

-- The setting with the number was written, or nothing was.
abbrev pub SetOrKept : ℕ → SettingValue → Settings → Settings → Type 0
SetOrKept id v s t =
    ((k : Key) × (type : ℕ) × (config_key id ≡ some (k, type))
      × (type_index v ≡ type)
      × (get_config id t ≡ some v)
      × ((j : Key) → get j t ≡ (if same_key k j then some v else get j s)))
    ⊎ (s ≡ t)
