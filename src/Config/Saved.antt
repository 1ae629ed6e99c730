-- ===== src/Config/Saved.antt =====
-- What the document that `FlushToFile` builds holds at the places that `ParseFromFile` reads.
use mathlib.Core.Option
use beam_mp_server.Base.{
  ◌≡◌, refl, sym, ap, ◌∙◌, List, [], ◌∷◌, Option, none, some, arith, if◌then◌else◌, All, list_beq,
  subst,
}
use beam_mp_server.Base.Dict.{lookup}
use beam_mp_server.Base.Text.{Bytes, codes}
use beam_mp_server.App.{text_eq}
use beam_mp_server.Config.{
  Environment, Document, Read, TomlValue, toml_text, toml_int, toml_bool, section, env_get,
  entry_at, reads,
}
use beam_mp_server.Config.File.{
  Getter, as_string, as_bool, as_int, get_toml, put, text_of, bool_of, int_of, Written,
  flush_section, general_written, misc_written, two_sections, document_of,
}
use beam_mp_server.Settings.{
  Key, SettingValue, text_setting, bool_setting, int_setting, Settings, key_eq, get, text_in,
  bool_in, int_in, get_as_string, get_as_bool, get_as_int,
}

unfoldable pub to_toml : SettingValue → TomlValue
to_toml (text_setting v) = toml_text v
to_toml (bool_setting v) = toml_bool v
to_toml (int_setting v) = toml_int v

-- A setting's value as the file holds it.
abbrev pub saved : Key → Settings → Option TomlValue
saved k s = Option.map to_toml (lookup k s.values)

abbrev read_as : Getter → Option SettingValue → Option TomlValue
read_as as_string o = text_of (text_in o)
read_as as_bool o = bool_of (bool_in o)
read_as as_int o = int_of (int_in o)

read_as-saved :
    (g : Getter) (o : Option SettingValue) (v : TomlValue)
    → read_as g o ≡ some v
    → Option.map to_toml o ≡ some v
unfolding to_toml
read_as-saved as_string none v h = absurd (ground arith)
read_as-saved as_string (some (text_setting x)) v h = h
read_as-saved as_string (some (bool_setting x)) v h = absurd (ground arith)
read_as-saved as_string (some (int_setting x)) v h = absurd (ground arith)
read_as-saved as_bool none v h = absurd (ground arith)
read_as-saved as_bool (some (text_setting x)) v h = absurd (ground arith)
read_as-saved as_bool (some (bool_setting x)) v h = h
read_as-saved as_bool (some (int_setting x)) v h = absurd (ground arith)
read_as-saved as_int none v h = absurd (ground arith)
read_as-saved as_int (some (text_setting x)) v h = absurd (ground arith)
read_as-saved as_int (some (bool_setting x)) v h = absurd (ground arith)
read_as-saved as_int (some (int_setting x)) v h = h

get_toml_lem :
    (g : Getter) (k : Key) (s : Settings) → get_toml g k s ≡ read_as g (lookup k s.values)
unfolding get_toml get_as_string get_as_bool get_as_int get
get_toml_lem as_string k s = refl
get_toml_lem as_bool k s = refl
get_toml_lem as_int k s = refl

get_toml-saved :
    (g : Getter) (k : Key) (s : Settings) (v : TomlValue)
    → get_toml g k s ≡ some v
    → saved k s ≡ some v
get_toml-saved g k s v h = read_as-saved g (lookup k s.values) v (sym (get_toml_lem g k s) ∙ h)

-- The setting under a name of a section.
abbrev found : Written → Bytes → Settings → Option TomlValue
found [] name s = none
found ((n, (g, k)) ∷ ws) name s = if list_beq n name then saved k s else found ws name s

abbrev entries : Option (List (Bytes × TomlValue)) → Bytes → Option TomlValue
entries none name = none
entries (some m) name = lookup name m

put_inv :
    (n : Bytes) (o : Option TomlValue) (rest : Option (List (Bytes × TomlValue)))
    (m : List (Bytes × TomlValue))
    → put n o rest ≡ some m
    → (v : TomlValue) × (l : List (Bytes × TomlValue)) × (o ≡ some v)
      × (rest ≡ some l)
      × (m ≡ (n, v) ∷ l)
put_inv n none rest m h = absurd (ground arith)
put_inv n (some v) none m h = absurd (ground arith)
put_inv n (some v) (some l) m h = (v, l, refl, refl, ground arith)

flush_section-found :
    (ws : Written) (s : Settings) (m : List (Bytes × TomlValue)) (name : Bytes)
    → flush_section ws s ≡ some m
    → lookup name m ≡ found ws name s
unfolding flush_section lookup
flush_section-found [] s m name h = let e : m ≡ [] = ground arith in rw e refl
flush_section-found ((n, (g, k)) ∷ ws) s m name h =
    let p = put_inv n (get_toml g k s) (flush_section ws s) m h in
    let rest = flush_section-found ws s p.1 name p.3 in
    rw (p.4, get_toml-saved g k s p.0 p.2, rest) refl

-- A section depends on the settings that it holds.
flush_section-same :
    (ws : Written) (s t : Settings)
    → ((k : Key) → lookup k s.values ≡ lookup k t.values)
    → flush_section ws s ≡ flush_section ws t
unfolding flush_section
flush_section-same [] s t h = refl
flush_section-same ((n, (g, k)) ∷ ws) s t h =
    rw (get_toml_lem g k s, get_toml_lem g k t, h k, flush_section-same ws s t h) refl

pub document_of-same :
    (s t : Settings)
    → ((k : Key) → lookup k s.values ≡ lookup k t.values)
    → document_of s ≡ document_of t
unfolding document_of
document_of-same s t h =
    rw (flush_section-same general_written s t h, flush_section-same misc_written s t h) refl

abbrev pub no_variables : Environment
no_variables v = none

-- That the document holds a setting where the call reads it.
abbrev pub IsSaved : Document → Settings → Read → Type 0
IsSaved doc s r = entry_at doc r.category r.name ≡ some (saved r.key s)

two_sections_inv :
    (g m : Option (List (Bytes × TomlValue))) (doc : Document)
    → two_sections g m ≡ some doc
    → (x : List (Bytes × TomlValue)) × (y : List (Bytes × TomlValue)) × (g ≡ some x)
      × (m ≡ some y)
      × ((codes "General", section x) ∷ (codes "Misc", section y) ∷ [] ≡ doc)
two_sections_inv none m doc h = absurd (ground arith)
two_sections_inv (some g) none doc h = absurd (ground arith)
two_sections_inv (some g) (some m) doc h = (g, m, refl, refl, ground arith)

sections-IsSaved :
    (s : Settings) (g m : List (Bytes × TomlValue))
    → flush_section general_written s ≡ some g
    → flush_section misc_written s ≡ some m
    → All
        (IsSaved ((codes "General", section g) ∷ (codes "Misc", section m) ∷ []) s)
        (reads no_variables)
unfolding reads env_get entry_at lookup general_written misc_written
sections-IsSaved s g m h k =
    let at_general : (name : Bytes) → some (lookup name g) ≡ some (found general_written name s) =
      λ name. ap some (flush_section-found general_written s g name h) in
    let at_misc : (name : Bytes) → some (lookup name m) ≡ some (found misc_written name s) =
      λ name. ap some (flush_section-found misc_written s m name k) in
    (
      at_general (codes "Debug"),
      (
        at_general (codes "Private"),
        (
          at_general (codes "InformationPacket"),
          (
            at_general (codes "Port"),
            (
              at_general (codes "IP"),
              (
                at_general (codes "MaxCars"),
                (
                  at_general (codes "MaxPlayers"),
                  (
                    at_general (codes "Map"),
                    (
                      at_general (codes "Name"),
                      (
                        at_general (codes "Description"),
                        (
                          at_general (codes "Tags"),
                          (
                            at_general (codes "ResourceFolder"),
                            (
                              at_general (codes "AuthKey"),
                              (
                                at_general (codes "LogChat"),
                                (
                                  at_general (codes "AllowGuests"),
                                  (
                                    at_misc (codes "ImScaredOfUpdates"),
                                    (at_misc (codes "UpdateReminderTime"), tt),
                                  ),
                                ),
                              ),
                            ),
                          ),
                        ),
                      ),
                    ),
                  ),
                ),
              ),
            ),
          ),
        ),
      ),
    )

pub reads-IsSaved :
    (s : Settings) (doc : Document)
    → document_of s ≡ some doc
    → All (IsSaved doc s) (reads no_variables)
unfolding document_of
reads-IsSaved s doc h =
    let p =
      two_sections_inv (flush_section general_written s) (flush_section misc_written s) doc h in
    subst (λ d. All (IsSaved d s) (reads no_variables)) p.4 (sections-IsSaved s p.0 p.1 p.2 p.3)
