-- ===== src/Console/SettingsCommand/RoundTrip.antt =====
-- What `settings set` stored is what `settings get` shows.
use beam_mp_server.Base.{
  ◌≡◌, refl, ap, ◌∙◌, true, false, Bool, List, ◌∷◌, Option, none, some, arith, list_beq,
  if◌then◌else◌, subst,
}
use beam_mp_server.Base.Dict.{lookup}
use beam_mp_server.Base.Text.{Bytes, codes}
use beam_mp_server.Base.Ints.{ℤ}
use beam_mp_server.Settings.{
  Key, AccessMask, read_only, read_write, no_access, ComposedKey, Settings, SettingValue,
  text_setting, bool_setting, int_setting, get, readable, write_to, composed_eq, key_eq,
  get_console_input_access_mapping, set_console_input_access_mapping,
}
use beam_mp_server.Settings.Access.{written, set_console-Written}
use beam_mp_server.Console.SettingsCommand.{
  SettingsReply, shown, stored, command_settings, settings_get, settings_set, read_setting,
  value_at, show, store, after_set, store_int, store_as, stoi_signed, named,
}

value_at-written :
    (v : SettingValue) (s t : Settings) (entry : Option (Key × AccessMask))
    → write_to v s entry ≡ some t
    → value_at t (readable entry) ≡ some v
unfolding get
value_at-written v s t none h = absurd (ground arith)
value_at-written v s t (some (k, read_only)) h = absurd (ground arith)
value_at-written v s t (some (k, no_access)) h = absurd (ground arith)
value_at-written v s t (some (k, read_write)) h = written k v s t (lookup k s.values) h

-- A write that succeeded is read.
read_setting-set :
    (name : ComposedKey) (v : SettingValue) (s t : Settings)
    → set_console_input_access_mapping name v s ≡ some t
    → read_setting name t ≡ some v
unfolding read_setting get_console_input_access_mapping set_console_input_access_mapping
read_setting-set name v s t h =
    ap (λ table. value_at t (readable (lookup name table))) (set_console-Written name v s t h).table
    ∙ value_at-written v s t (lookup name s.access) h

-- That what an answer says was stored is what is read.
abbrev ReadBack : ComposedKey → SettingsReply × Settings → Type 0
ReadBack name (answer, t) = elim answer [
  | stored m v ↦ show name (read_setting name t) ≡ shown m v
  | _ ↦ Unit
]

store-ReadBack :
    (name : ComposedKey) (v : SettingValue) (s : Settings) → ReadBack name (store name v s)
unfolding store
store-ReadBack name v s = go (set_console_input_access_mapping name v s) refl
  where
    go :
        (r : Option Settings)
        → set_console_input_access_mapping name v s ≡ r
        → ReadBack name (after_set name v s r)
    go none e = tt
    go (some t) e = ap (show name) (read_setting-set name v s t e)

either :
    (name : ComposedKey) (b : Bool) (x y : SettingsReply × Settings)
    → ReadBack name x
    → ReadBack name y
    → ReadBack name (if b then x else y)
either name true x y p q = p
either name false x y p q = q

store_int-ReadBack :
    (name : ComposedKey) (i : Option ℤ) (s : Settings) → ReadBack name (store_int name i s)
store_int-ReadBack name none s = tt
store_int-ReadBack name (some i) s = store-ReadBack name (int_setting i) s

store_as-ReadBack :
    (name : ComposedKey) (text : Bytes) (old : Option SettingValue) (s : Settings)
    → ReadBack name (store_as name text old s)
unfolding store_as
store_as-ReadBack name text none s = tt
store_as-ReadBack name text (some (text_setting old)) s = store-ReadBack name (text_setting text) s
store_as-ReadBack name text (some (int_setting old)) s =
    store_int-ReadBack name (stoi_signed text) s
store_as-ReadBack name text (some (bool_setting old)) s =
    either name (list_beq text (codes "true")) _ _ (store-ReadBack name (bool_setting true) s) (
      either name (list_beq text (codes "false")) _ _ (store-ReadBack name (bool_setting false) s)
        tt)

-- If `settings set` with a category, a key and a text answers that it stored a value, then
-- `settings get` with this category and key, run next, answers with the same name and value, and
-- changes nothing.
pub settings_get-settings_set :
    (c k text : Bytes) (more others : List Bytes) (s t : Settings) (m : ComposedKey)
    (v : SettingValue)
    → command_settings (codes "set" ∷ c ∷ k ∷ text ∷ more) s ≡ (stored m v, t)
    → command_settings (codes "get" ∷ c ∷ k ∷ others) t ≡ (shown m v, t)
unfolding command_settings settings_get settings_set
settings_get-settings_set c k text more others s t m v h =
    ap (λ answer. (answer, t))
      (subst (ReadBack (named c k)) h
        (store_as-ReadBack (named c k) text (read_setting (named c k) s) s))
