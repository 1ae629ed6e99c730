-- ===== src/Settings.antt =====
-- include/Settings.h and src/Settings.cpp: the settings by key, each of the type it began with,
-- and the table of what the console may read and write. Both maps stand under locks, so that each
-- method is one step; `none` is `std::logic_error`. The overloads of `set` for a text, a flag and
-- a number are one function here, on a value with its type.
pub mod Access
use beam_mp_server.Base.{
  ℕ, ◌-◌, ◌≡◌, ◌↔◌, refl, sym, ap, ◌∙◌, Bool, true, false, ◌&&◌, List, [], ◌∷◌, Option, none, some,
  arith, ◌==◌, if◌then◌else◌, list_beq, list_beq_iff, Eq, ==_iff,
}
use beam_mp_server.Base.Dict.{lookup, insert}
use beam_mp_server.Base.Ints.{ℤ, pos}
use beam_mp_server.Base.Text.{Bytes, codes}

pub data Key : Type 0 where
  misc_im_scared_of_updates misc_update_reminder_time general_description general_tags : Key
  general_max_players general_name general_map general_auth_key general_private : Key
  general_ip general_port general_max_cars general_log_chat general_resource_folder : Key
  general_debug general_allow_guests general_information_packet : Key

pub data SettingValue : Type 0 where
  text_setting : Bytes → SettingValue
  bool_setting : Bool → SettingValue
  int_setting : ℤ → SettingValue

pub data AccessMask : Type 0 where
  read_only read_write no_access : AccessMask

pub record ComposedKey : Type 0 where
  pub category : Bytes
  pub key : Bytes

-- The number of an enumerator.
abbrev pub key_index : Key → ℕ
key_index misc_im_scared_of_updates = 0
key_index misc_update_reminder_time = 1
key_index general_description = 2
key_index general_tags = 3
key_index general_max_players = 4
key_index general_name = 5
key_index general_map = 6
key_index general_auth_key = 7
key_index general_private = 8
key_index general_ip = 9
key_index general_port = 10
key_index general_max_cars = 11
key_index general_log_chat = 12
key_index general_resource_folder = 13
key_index general_debug = 14
key_index general_allow_guests = 15
key_index general_information_packet = 16

all_keys : List Key
all_keys =
    misc_im_scared_of_updates ∷ misc_update_reminder_time ∷ general_description ∷ general_tags
    ∷ general_max_players ∷ general_name ∷ general_map ∷ general_auth_key ∷ general_private
    ∷ general_ip ∷ general_port ∷ general_max_cars ∷ general_log_chat ∷ general_resource_folder
    ∷ general_debug ∷ general_allow_guests ∷ general_information_packet ∷ []

abbrev nth_key : ℕ → List Key → Key
nth_key n [] = general_debug
nth_key n (k ∷ ks) = if n == 0 then k else nth_key (n - 1) ks

nth_key-key_index : (k : Key) → nth_key (key_index k) all_keys ≡ k
unfolding all_keys
nth_key-key_index misc_im_scared_of_updates = refl
nth_key-key_index misc_update_reminder_time = refl
nth_key-key_index general_description = refl
nth_key-key_index general_tags = refl
nth_key-key_index general_max_players = refl
nth_key-key_index general_name = refl
nth_key-key_index general_map = refl
nth_key-key_index general_auth_key = refl
nth_key-key_index general_private = refl
nth_key-key_index general_ip = refl
nth_key-key_index general_port = refl
nth_key-key_index general_max_cars = refl
nth_key-key_index general_log_chat = refl
nth_key-key_index general_resource_folder = refl
nth_key-key_index general_debug = refl
nth_key-key_index general_allow_guests = refl
nth_key-key_index general_information_packet = refl

abbrev pub same_key : Key → Key → Bool
same_key a b = key_index a == key_index b

pub same_key_iff : (a b : Key) → (same_key a b ≡ true) ↔ (a ≡ b)
same_key_iff a b = (
  (λ e.
      sym (nth_key-key_index a)
      ∙ ap (λ n. nth_key n all_keys) ((==_iff (key_index a) (key_index b)).0 e)
      ∙ nth_key-key_index b),
  (λ e. (==_iff (key_index a) (key_index b)).1 (ap key_index e)),
)

instance abbrev pub key_eq : Eq Key
key_eq = record { beq = same_key; beq_iff = same_key_iff }

abbrev pub same_composed : ComposedKey → ComposedKey → Bool
same_composed a b = list_beq a.category b.category && list_beq a.key b.key

pub same_composed_iff : (a b : ComposedKey) → (same_composed a b ≡ true) ↔ (a ≡ b)
same_composed_iff a b = ground (arith, list_beq_iff a.category b.category, list_beq_iff a.key b.key)

instance abbrev pub composed_eq : Eq ComposedKey
composed_eq = record { beq = same_composed; beq_iff = same_composed_iff }

pub record Settings : Type 0 where
  pub values : List (Key × SettingValue)
  pub access : List (ComposedKey × (Key × AccessMask))

unfoldable pub initial_values : List (Key × SettingValue)
initial_values =
    (general_description, text_setting (codes "BeamMP Default Description"))
    ∷ (general_tags, text_setting (codes "Freeroam"))
    ∷ (general_max_players, int_setting (pos 8))
    ∷ (general_name, text_setting (codes "BeamMP Server"))
    ∷ (general_map, text_setting (codes "/levels/gridmap_v2/info.json"))
    ∷ (general_auth_key, text_setting [])
    ∷ (general_private, bool_setting true)
    ∷ (general_ip, text_setting (codes "::"))
    ∷ (general_port, int_setting (pos 30814))
    ∷ (general_max_cars, int_setting (pos 1))
    ∷ (general_log_chat, bool_setting true)
    ∷ (general_resource_folder, text_setting (codes "Resources"))
    ∷ (general_debug, bool_setting false)
    ∷ (general_allow_guests, bool_setting true)
    ∷ (general_information_packet, bool_setting true)
    ∷ (misc_im_scared_of_updates, bool_setting true)
    ∷ (misc_update_reminder_time, text_setting (codes "30s"))
    ∷ []

abbrev general : Bytes → Key → AccessMask → ComposedKey × (Key × AccessMask)
general name k mask = (record { category = codes "General"; key = name }, (k, mask))

abbrev misc : Bytes → Key → AccessMask → ComposedKey × (Key × AccessMask)
misc name k mask = (record { category = codes "Misc"; key = name }, (k, mask))

unfoldable pub initial_access : List (ComposedKey × (Key × AccessMask))
initial_access =
    general (codes "Description") general_description read_write
    ∷ general (codes "Tags") general_tags read_write
    ∷ general (codes "MaxPlayers") general_max_players read_write
    ∷ general (codes "Name") general_name read_write
    ∷ general (codes "Map") general_map read_write
    ∷ general (codes "AuthKey") general_auth_key no_access
    ∷ general (codes "Private") general_private read_only
    ∷ general (codes "IP") general_ip read_only
    ∷ general (codes "Port") general_port read_only
    ∷ general (codes "MaxCars") general_max_cars read_write
    ∷ general (codes "LogChat") general_log_chat read_only
    ∷ general (codes "ResourceFolder") general_resource_folder read_only
    ∷ general (codes "Debug") general_debug read_write
    ∷ general (codes "AllowGuests") general_allow_guests read_write
    ∷ general (codes "InformationPacket") general_information_packet read_write
    ∷ misc (codes "ImScaredOfUpdates") misc_im_scared_of_updates read_write
    ∷ misc (codes "UpdateReminderTime") misc_update_reminder_time read_write
    ∷ []

unfoldable pub initial : Settings
initial = record { values = initial_values; access = initial_access }

-- `std::get` of the wrong type throws.
unfoldable pub get : Key → Settings → Option SettingValue
get k s = lookup k s.values

abbrev pub text_in : Option SettingValue → Option Bytes
text_in none = none
text_in (some v) = elim v [ text_setting t ↦ some t | _ ↦ none ]

abbrev pub int_in : Option SettingValue → Option ℤ
int_in none = none
int_in (some v) = elim v [ int_setting i ↦ some i | _ ↦ none ]

abbrev pub bool_in : Option SettingValue → Option Bool
bool_in none = none
bool_in (some v) = elim v [ bool_setting b ↦ some b | _ ↦ none ]

unfoldable pub get_as_string : Key → Settings → Option Bytes
get_as_string k s = text_in (get k s)

unfoldable pub get_as_int : Key → Settings → Option ℤ
get_as_int k s = int_in (get k s)

unfoldable pub get_as_bool : Key → Settings → Option Bool
get_as_bool k s = bool_in (get k s)

-- `variant::index`.
unfoldable pub type_index : SettingValue → ℕ
type_index (text_setting t) = 0
type_index (bool_setting b) = 1
type_index (int_setting i) = 2

-- The assignment, if the value there has the new value's type.
abbrev pub assign : Key → SettingValue → Settings → Option SettingValue → Option Settings
assign k v s none = none
assign k v s (some old) =
    if type_index old == type_index v
    then some (record s { values = insert k v s.values })
    else none

unfoldable pub set : Key → SettingValue → Settings → Option Settings
set k v s = assign k v s (get k s)

abbrev pub readable : Option (Key × AccessMask) → Option (Key × AccessMask)
readable none = none
readable (some (k, mask)) = elim mask [ no_access ↦ none | m ↦ some (k, m) ]

unfoldable pub get_console_input_access_mapping : ComposedKey → Settings → Option (Key × AccessMask)
get_console_input_access_mapping name s = readable (lookup name s.access)

abbrev pub write_to : SettingValue → Settings → Option (Key × AccessMask) → Option Settings
write_to v s none = none
write_to v s (some (k, mask)) = elim mask [ read_write ↦ assign k v s (get k s) | _ ↦ none ]

unfoldable pub set_console_input_access_mapping :
    ComposedKey → SettingValue → Settings → Option Settings
set_console_input_access_mapping name v s = write_to v s (lookup name s.access)
