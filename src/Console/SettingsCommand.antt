-- ===== src/Console/SettingsCommand.antt =====
-- src/TConsole.cpp: the command `settings`. What it prints is its answer here, with the name and
-- the value of a line; the list of the settings has the order of the table.
pub mod RoundTrip
use beam_mp_server.Base.{
  ℕ, ◌+◌, ◌-◌, ◌*◌, ◌^◌, ◌<◌, ◌≤◌, Bool, true, false, List, [], ◌∷◌, Option, none, some, ltb, leb,
  ◌==◌, if◌then◌else◌, list_beq, ◌&&◌,
}
use beam_mp_server.Base.Ints.{ℤ, pos, negsuc}
use beam_mp_server.Base.Text.{Bytes, codes}
use beam_mp_server.Console.{skip_spaces}
use beam_mp_server.Settings.{
  Key, SettingValue, text_setting, bool_setting, int_setting, AccessMask, read_only, read_write,
  no_access, ComposedKey, Settings, get, get_console_input_access_mapping,
  set_console_input_access_mapping,
}

-- `std::stoi`: white space, a sign, digits, and whatever follows; `none` is an exception.
abbrev pub leading : ℕ → Bytes → ℕ
leading acc [] = acc
leading acc (c ∷ s) = if leb 48 c && leb c 57 then leading (acc * 10 + (c - 48)) s else acc

abbrev pub starts_with_digit : Bytes → Bool
starts_with_digit [] = false
starts_with_digit (c ∷ s) = leb 48 c && leb c 57

abbrev pub positive : Bytes → Option ℤ
positive s =
    if starts_with_digit s && ltb (leading 0 s) (2 ^ 31) then some (pos (leading 0 s)) else none

abbrev pub opposite : ℕ → ℤ
opposite n = if n == 0 then pos 0 else negsuc (n - 1)

abbrev pub negative : Bytes → Option ℤ
negative s =
    if starts_with_digit s && leb (leading 0 s) (2 ^ 31)
    then some (opposite (leading 0 s))
    else none

abbrev pub after_sign : Bytes → Option ℤ
after_sign [] = none
after_sign (c ∷ s) =
    if c == b'-' then negative s else if c == b'+' then positive s else positive (c ∷ s)

abbrev pub stoi_signed : Bytes → Option ℤ
stoi_signed s = after_sign (skip_spaces s)

pub data SettingsReply : Type 0 where
  no_arguments help too_few unknown_argument refused unknown_literal : SettingsReply
  shown stored : ComposedKey → SettingValue → SettingsReply
  listed : List (ComposedKey × Option SettingValue) → SettingsReply

abbrev pub named : Bytes → Bytes → ComposedKey
named c k = record { category = c; key = k }

abbrev pub value_at : Settings → Option (Key × AccessMask) → Option SettingValue
value_at s none = none
value_at s (some (k, mask)) = get k s

-- What the console may read of a setting.
unfoldable pub read_setting : ComposedKey → Settings → Option SettingValue
read_setting name s = value_at s (get_console_input_access_mapping name s)

abbrev pub show : ComposedKey → Option SettingValue → SettingsReply
show name none = refused
show name (some v) = shown name v

unfoldable pub settings_get : List Bytes → Settings → SettingsReply
settings_get (c ∷ k ∷ more) s = let name = named c k in show name (read_setting name s)
settings_get args s = too_few

abbrev pub after_set :
    ComposedKey → SettingValue → Settings → Option Settings → SettingsReply × Settings
after_set name v s none = (refused, s)
after_set name v s (some t) = (stored name v, t)

unfoldable pub store : ComposedKey → SettingValue → Settings → SettingsReply × Settings
store name v s = after_set name v s (set_console_input_access_mapping name v s)

abbrev pub store_int : ComposedKey → Option ℤ → Settings → SettingsReply × Settings
store_int name none s = (refused, s)
store_int name (some i) s = store name (int_setting i) s

-- The text is read as the type that the setting has.
unfoldable pub store_as :
    ComposedKey → Bytes → Option SettingValue → Settings → SettingsReply × Settings
store_as name text none s = (refused, s)
store_as name text (some (text_setting old)) s = store name (text_setting text) s
store_as name text (some (int_setting old)) s = store_int name (stoi_signed text) s
store_as name text (some (bool_setting old)) s =
    if list_beq text (codes "true")
    then store name (bool_setting true) s
    else if list_beq text (codes "false")
    then store name (bool_setting false) s
    else (unknown_literal, s)

unfoldable pub settings_set : List Bytes → Settings → SettingsReply × Settings
settings_set (c ∷ k ∷ text ∷ more) s =
    let name = named c k in store_as name text (read_setting name s) s
settings_set args s = (too_few, s)

abbrev pub is_no_access : AccessMask → Bool
is_no_access m = elim m [ no_access ↦ true | _ ↦ false ]

-- A setting without access is left out; `none` is a line with an error.
unfoldable pub settings_list :
    List (ComposedKey × (Key × AccessMask)) → Settings → List (ComposedKey × Option SettingValue)
settings_list [] s = []
settings_list ((name, (k, mask)) ∷ m) s =
    let rest = settings_list m s in
    if is_no_access mask then rest else (name, read_setting name s) ∷ rest

unfoldable pub command_settings : List Bytes → Settings → SettingsReply × Settings
command_settings [] s = (no_arguments, s)
command_settings (sub ∷ args) s =
    if list_beq sub (codes "help")
    then (help, s)
    else if list_beq sub (codes "get")
    then (settings_get args s, s)
    else if list_beq sub (codes "set")
    then settings_set args s
    else if list_beq sub (codes "list")
    then (listed (settings_list s.access s), s)
    else (unknown_argument, s)
