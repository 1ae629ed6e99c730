-- ===== src/Config/RoundTrip.antt =====
-- What `FlushToFile` wrote is what the next start of the server reads.
use mathlib.Core.Option
use beam_mp_server.Base.{
  ℕ, ◌≡◌, refl, sym, ap, ◌∙◌, Bool, true, false, ◌||◌, List, [], ◌∷◌, Option, none, some, arith,
  ==_iff, if◌then◌else◌, ◌⊎◌, All, any_of, is_empty, Bool-cases, inl, inr, subst,
}
use beam_mp_server.Base.Dict.{lookup, insert, lookup-insert}
use beam_mp_server.Base.Text.{Bytes}
use beam_mp_server.App.{text_eq, good, starting}
use beam_mp_server.Config.Words.{Fits, wrap-Fits'}
use beam_mp_server.Config.{
  Document, Read, env_get, from_toml, new_value, try_read_value, reads, read_all,
}
use beam_mp_server.Config.File.{
  document_of, Config, holds, new_config, parse_from_file, after_reads, flush_to_file, check_key,
  fail,
}
use beam_mp_server.Settings.{
  Key, SettingValue, text_setting, bool_setting, int_setting, Settings, key_eq, same_key,
  same_key_iff, misc_im_scared_of_updates, misc_update_reminder_time, general_description,
  general_tags, general_max_players, general_name, general_map, general_private, general_ip,
  general_port, general_max_cars, general_log_chat, general_resource_folder, general_debug,
  general_allow_guests, general_information_packet, get, set, type_index, get_as_string,
  general_auth_key, initial, initial_values,
}
use beam_mp_server.Settings.Access.{type_of}
use beam_mp_server.Config.Saved.{
  to_toml, saved, no_variables, IsSaved, reads-IsSaved, document_of-same,
}

abbrev pub FitsIn : SettingValue → Type 0
FitsIn (int_setting i) = Fits i
FitsIn _ = Unit {0}

-- The settings have the keys and the types that they began with, and their numbers fit an `int`.
pub record IsRegular (s : Settings) : Type 0 where
  pub types : (j : Key) → type_of j s ≡ type_of j initial
  pub fit : (j : Key) (v : SettingValue) → lookup j s.values ≡ some v → FitsIn v

from_toml-to_toml :
    (old v : SettingValue)
    → type_index old ≡ type_index v
    → FitsIn v
    → from_toml old (to_toml v) ≡ some v
unfolding from_toml to_toml type_index
from_toml-to_toml (text_setting a) (text_setting b) h f = refl
from_toml-to_toml (bool_setting a) (bool_setting b) h f = refl
from_toml-to_toml (int_setting a) (int_setting b) h f = rw (wrap-Fits' b f) refl
from_toml-to_toml (text_setting a) (bool_setting b) h f = absurd (omega arith)
from_toml-to_toml (text_setting a) (int_setting b) h f = absurd (omega arith)
from_toml-to_toml (bool_setting a) (text_setting b) h f = absurd (omega arith)
from_toml-to_toml (bool_setting a) (int_setting b) h f = absurd (omega arith)
from_toml-to_toml (int_setting a) (text_setting b) h f = absurd (omega arith)
from_toml-to_toml (int_setting a) (bool_setting b) h f = absurd (omega arith)

abbrev inserted : Key → SettingValue → Settings → Settings
inserted k v t = record t { values = insert k v t.values }

restore_one :
    (doc : Document) (r : Read) (s t : Settings) (old v : SettingValue)
    → IsSaved doc s r
    → lookup r.key s.values ≡ some v
    → lookup r.key t.values ≡ some old
    → type_index old ≡ type_index v
    → FitsIn v
    → try_read_value no_variables doc r t ≡ some (inserted r.key v t)
unfolding try_read_value new_value env_get get set
restore_one doc r s t old v saved here there same fits =
    rw (there, saved, here, from_toml-to_toml old v same fits)
      (rw there (rw ((==_iff (type_index old) (type_index v)).1 same) refl))

present_as :
    (n : Option ℕ) (k : Key) (s : Settings)
    → type_of k s ≡ n
    → (m : ℕ) × (n ≡ some m)
    → (v : SettingValue) × (lookup k s.values ≡ some v)
present_as n k s e m = go (lookup k s.values) refl (e ∙ m.1)
  where
    go :
        (o : Option SettingValue)
        → lookup k s.values ≡ o
        → Option.map type_index o ≡ some m.0
        → (v : SettingValue) × (lookup k s.values ≡ some v)
    go none e h = absurd (ground arith)
    go (some v) e h = (v, e)

initial_types : (k : Key) → (m : ℕ) × (type_of k initial ≡ some m)
unfolding lookup type_index initial initial_values
initial_types misc_im_scared_of_updates = (_, refl)
initial_types misc_update_reminder_time = (_, refl)
initial_types general_description = (_, refl)
initial_types general_tags = (_, refl)
initial_types general_max_players = (_, refl)
initial_types general_name = (_, refl)
initial_types general_map = (_, refl)
initial_types general_auth_key = (_, refl)
initial_types general_private = (_, refl)
initial_types general_ip = (_, refl)
initial_types general_port = (_, refl)
initial_types general_max_cars = (_, refl)
initial_types general_log_chat = (_, refl)
initial_types general_resource_folder = (_, refl)
initial_types general_debug = (_, refl)
initial_types general_allow_guests = (_, refl)
initial_types general_information_packet = (_, refl)

present : (s : Settings) (k : Key) → IsRegular s → (v : SettingValue) × (lookup k s.values ≡ some v)
present s k r = present_as (type_of k initial) k s (r.types k) (initial_types k)

same_index :
    (k : Key) (s t : Settings) (v old : SettingValue)
    → type_of k t ≡ type_of k s
    → lookup k s.values ≡ some v
    → lookup k t.values ≡ some old
    → type_index old ≡ type_index v
same_index k s t v old e h g =
    let both : some (type_index old) ≡ some (type_index v) =
      sym (ap (Option.map type_index) g) ∙ e ∙ ap (Option.map type_index) h in
    ground arith

-- What the calls leave: the saved value where there is a call for the setting.
abbrev Restored : Document → Settings → List Read → Settings → Settings → Type 0
Restored doc s rs t u =
    (read_all no_variables doc rs t ≡ (u, true))
    × ((j : Key)
        → lookup j u.values
          ≡ (if any_of (λ r. same_key r.key j) rs then lookup j s.values else lookup j t.values))

restore-All :
    (doc : Document) (s : Settings)
    → IsRegular s
    → (rs : List Read) (t : Settings) → All (IsSaved doc s) rs
    → ((j : Key) → type_of j t ≡ type_of j s)
    → (u : Settings) × Restored doc s rs t u
unfolding read_all
restore-All doc s reg [] t h types = (t, (refl, λ j. refl))
restore-All doc s reg (r ∷ rs) t h types =
    let here = present s r.key reg in
    let there =
      present_as (type_of r.key s) r.key t (types r.key)
        (type_index here.0, ap (Option.map type_index) here.1) in
    let v = here.0 in
    let one =
      restore_one doc r s t there.0 v h.0 here.1 there.1
        (same_index r.key s t v there.0 (types r.key) here.1 there.1) (reg.fit r.key v here.1) in
    let kept : (j : Key)
        → lookup j (inserted r.key v t).values
          ≡ (if same_key r.key j then lookup j s.values else lookup j t.values) =
      λ j. lookup-insert r.key j v t.values ∙ agree j v here.1 (Bool-cases (same_key r.key j)) in
    let rest =
      restore-All doc s reg rs (inserted r.key v t) h.1
        (λ j. typed j v (kept j) (Bool-cases (same_key r.key j))) in
    (
      rest.0,
      (
        rw (one, read_all) rest.1.0,
        λ j.
            rest.1.1 j ∙ joined j (any_of (λ r. same_key r.key j) rs) (same_key r.key j) v (kept j),
      ),
    )
  where
    agree :
        (j : Key) (v : SettingValue)
        → lookup r.key s.values ≡ some v
        → (same_key r.key j ≡ true) ⊎ (same_key r.key j ≡ false)
        → (if same_key r.key j then some v else lookup j t.values)
          ≡ (if same_key r.key j then lookup j s.values else lookup j t.values)
    agree j v e (inl b) = rw b (sym e ∙ ap (λ k. lookup k s.values) ((same_key_iff r.key j).0 b))
    agree j v e (inr b) = rw b refl

    typed :
        (j : Key) (v : SettingValue)
        → lookup j (inserted r.key v t).values
          ≡ (if same_key r.key j then lookup j s.values else lookup j t.values)
        → (same_key r.key j ≡ true) ⊎ (same_key r.key j ≡ false)
        → type_of j (inserted r.key v t) ≡ type_of j s
    typed j v e (inl b) = ap (Option.map type_index) (e ∙ rw b refl)
    typed j v e (inr b) = ap (Option.map type_index) (e ∙ rw b refl) ∙ types j

    joined :
        (j : Key) (later now : Bool) (v : SettingValue)
        → lookup j (inserted r.key v t).values
          ≡ (if now then lookup j s.values else lookup j t.values)
        → (if later then lookup j s.values else lookup j (inserted r.key v t).values)
          ≡ (if now || later then lookup j s.values else lookup j t.values)
    joined j true true v e = refl
    joined j true false v e = refl
    joined j false true v e = e
    joined j false false v e = e

all_read : (j : Key) → any_of (λ r. same_key r.key j) (reads no_variables) ≡ true
unfolding reads
all_read misc_im_scared_of_updates = refl
all_read misc_update_reminder_time = refl
all_read general_description = refl
all_read general_tags = refl
all_read general_max_players = refl
all_read general_name = refl
all_read general_map = refl
all_read general_auth_key = refl
all_read general_private = refl
all_read general_ip = refl
all_read general_port = refl
all_read general_max_cars = refl
all_read general_log_chat = refl
all_read general_resource_folder = refl
all_read general_debug = refl
all_read general_allow_guests = refl
all_read general_information_packet = refl

pub FitsIn-lookup :
    (m : List (Key × SettingValue)) (j : Key) (v : SettingValue)
    → All (λ p. FitsIn p.1) m
    → lookup j m ≡ some v
    → FitsIn v
unfolding lookup
FitsIn-lookup [] j v h e = absurd (ground arith)
FitsIn-lookup ((k, w) ∷ m) j v h e = elim (Bool-cases (same_key k j)) [
  | inl b ↦ subst FitsIn (some_inj w v (sym (rw b refl) ∙ e)) h.0
  | inr b ↦ FitsIn-lookup m j v h.1 (sym (rw b refl) ∙ e)
]
  where
    some_inj : (a b : SettingValue) → some a ≡ some b → a ≡ b
    some_inj a b e = ground arith

text_typed :
    (k : Key) (s : Settings) (v : SettingValue)
    → lookup k s.values ≡ some v
    → type_index v ≡ 0
    → (x : Bytes) × (get_as_string k s ≡ some x)
unfolding get_as_string get type_index
text_typed k s (text_setting x) e h = (x, rw e refl)
text_typed k s (bool_setting x) e h = absurd (omega arith)
text_typed k s (int_setting x) e h = absurd (omega arith)

auth_key_index :
    (s : Settings) (v : SettingValue)
    → type_of general_auth_key s ≡ type_of general_auth_key initial
    → lookup general_auth_key s.values ≡ some v
    → type_index v ≡ 0
unfolding lookup type_index initial initial_values
auth_key_index s v t e =
    let both : some (type_index v) ≡ some 0 = sym (ap (Option.map type_index) e) ∙ t in ground arith

check_key_lem :
    (c : Config) (x : Bytes)
    → get_as_string general_auth_key c.settings ≡ some x
    → (d : Config) × (check_key c ≡ some d) × (d.settings ≡ c.settings) × (d.file ≡ c.file)
unfolding check_key
check_key_lem c x h = elim (Bool-cases (is_empty x)) [
  | inl b ↦ (fail c, rw (h, check_key) (rw b refl), refl, refl)
  | inr b ↦ (record c { status = good }, rw (h, check_key) (rw b refl), refl, refl)
]

started : Document → Settings → Config
started doc s = record {
  settings = s;
  file = holds doc;
  status = starting;
  failed = false;
  disabled = false;
}

-- The file is written as it was.
settled :
    (doc : Document) (t u : Settings)
    → document_of u ≡ some doc
    → after_reads true (started doc t) (u, true) ≡ check_key (started doc u)
unfolding after_reads flush_to_file started
settled doc t u h = rw (h, flush_to_file) refl

-- The settings of a regular server, written to its file and read at its next start without
-- variables in the environment, over settings of the same types: the start does not throw, finds
-- each setting as it was written, and leaves the file as it is.
pub new_config-document_of :
    (s t : Settings) (doc : Document)
    → IsRegular s
    → ((j : Key) → type_of j t ≡ type_of j initial)
    → document_of s ≡ some doc
    → (c : Config) × (new_config no_variables true (holds doc) t ≡ some c)
      × ((j : Key) → lookup j c.settings.values ≡ lookup j s.values)
      × (c.file ≡ holds doc)
unfolding new_config parse_from_file env_get started
new_config-document_of s t doc reg types h =
    let r =
      restore-All doc s reg (reads no_variables) t (reads-IsSaved s doc h)
        (λ j. types j ∙ sym (reg.types j)) in
    let u = r.0 in
    let same : (j : Key) → lookup j u.values ≡ lookup j s.values =
      λ j. r.1.1 j ∙ rw (all_read j) refl in
    let key = present s general_auth_key reg in
    let text =
      text_typed general_auth_key u key.0 (same general_auth_key ∙ key.1)
        (auth_key_index s key.0 (reg.types general_auth_key) key.1) in
    let d = check_key_lem (started doc u) text.0 text.1 in
    (
      d.0,
      ap (after_reads true (started doc t)) r.1.0
          ∙ settled doc t u (document_of-same u s same ∙ h)
          ∙ d.1,
      (λ j. ap (λ (x : Settings). lookup j x.values) d.2 ∙ same j),
      d.3,
    )
