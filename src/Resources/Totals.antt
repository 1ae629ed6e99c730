-- ===== src/Resources/Totals.antt =====
-- The constructor of `TResourceManager`: what the server tells others of the number and size of its
-- mods. It takes the entries' paths as texts.
use beam_mp_server.Base.{
  ℕ, suc, ◌+◌, ◌-◌, ◌%◌, ◌^◌, List, [], ◌∷◌, ◌++◌, Option, none, some, ◌==◌, if◌then◌else◌, length,
  take, drop,
}
use beam_mp_server.Base.Decimal.{to_string}
use beam_mp_server.Base.Text.{Bytes, codes, starts_with}

pub record Totals : Type 0 where
  pub file_list : Bytes
  pub trimmed_list : Bytes
  pub file_sizes : Bytes
  pub max_mod_size : ℕ
  pub mods_loaded : ℕ

unfoldable pub no_mods : Totals
no_mods = record {
  file_list = [];
  trimmed_list = [];
  file_sizes = [];
  max_mod_size = 0;
  mods_loaded = 0;
}

-- `find` of a text, for the first place from which it stands.
abbrev pub next_place : Option ℕ → Option ℕ
next_place none = none
next_place (some i) = some (suc i)

unfoldable pub find_text : Bytes → Bytes → Option ℕ
find_text what [] = none
find_text what (c ∷ s) = if starts_with what (c ∷ s) then some 0 else next_place (find_text what s)

abbrev pub or_here : Option ℕ → Option ℕ → Option ℕ
or_here none here = here
or_here (some i) here = some (suc i)

-- `find_last_of` a byte.
unfoldable pub find_last_of : ℕ → Bytes → Option ℕ
find_last_of c [] = none
find_last_of c (b ∷ s) = or_here (find_last_of c s) (if b == c then some 0 else none)

unfoldable pub with_slashes : Bytes → Bytes
with_slashes [] = []
with_slashes (c ∷ s) = (if c == 92 then 47 else c) ∷ with_slashes s

-- The name behind the last slash, up to `pos`; the path as it is without one.
abbrev pub base_name : ℕ → Bytes → Option ℕ → Bytes
base_name pos file none = file
base_name pos file (some i) = take (pos - suc i) (drop (suc i) file)

unfoldable pub add_mod : Bytes → ℕ → ℕ → Totals → Totals
add_mod path size pos t =
    let file = with_slashes path in
    record {
      file_list = t.file_list ++ (file ++ codes ";");
      trimmed_list =
          t.trimmed_list ++ (codes "/" ++ (base_name pos file (find_last_of 47 file) ++ codes ";"));
      file_sizes = t.file_sizes ++ (to_string size ++ codes ";");
      max_mod_size = (t.max_mod_size + size) % 2 ^ 64;
      mods_loaded = t.mods_loaded + 1;
    }

abbrev pub add_found : Bytes → ℕ → Totals → Option ℕ → Totals
add_found path size t none = t
add_found path size t (some pos) = if length path - pos == 4 then add_mod path size pos t else t

unfoldable pub count_mods : List (Bytes × ℕ) → Totals → Totals
count_mods [] t = t
count_mods ((path, size) ∷ es) t =
    count_mods es (add_found path size t (find_text (codes ".zip") path))
