-- ===== src/Resources/Tests.antt =====
-- The mods at concrete inputs, and the theorems there.
use beam_mp_server.Base.{
  ◌≡◌, refl, true, false, List, [], ◌∷◌, ◌++◌, Option, some, append_assoc, ap,
}
use beam_mp_server.Base.Dict.{lookup, insert, adjust}
use beam_mp_server.Base.Text.{Bytes, codes}
use beam_mp_server.App.{text_eq}
use beam_mp_server.Console.{ensure_count}
use beam_mp_server.Resources.{
  Entry, ModsDb, Digest, hex, update_pieces, hash_file, is_mod, rehash, use_remembered,
  refresh_entry, refresh_entries, refresh_files, set_protected, command_protect_mod,
}
use beam_mp_server.Base.Decimal.{to_string, digits_of}
use beam_mp_server.Base.Text.{starts_with}
use beam_mp_server.Resources.Hashing.{Updates}
use beam_mp_server.Resources.Totals.{
  count_mods, no_mods, add_mod, find_text, find_last_of, with_slashes,
}
use beam_mp_server.Resources.Refresh.{Distinct, mods_of, refresh_files-mods_of}
use beam_mp_server.Resources.Reload.{refresh_files-set_protected, NotSeen, NotSeen-All}

-- A digest that keeps its input.
abbrev plain : Digest Bytes
plain = record { init = some []; update = λ c s. some (c ++ s); final = λ c. some c }

append_nil : (c : Bytes) → c ++ [] ≡ c
append_nil [] = refl
append_nil (b ∷ c) = ap (◌∷◌ b) (append_nil c)

plain-Updates : Updates plain
plain-Updates = record {
  nothing = λ c. ap some (append_nil c);
  pieces = λ c s t. ap some (append_assoc c s t);
}

abbrev zip : Entry
zip = record {
  name = codes "a.zip";
  is_directory = false;
  write_time = 5;
  size = 2;
  contents = 1 ∷ 255 ∷ 7 ∷ [];
}

abbrev other : Entry
other = record zip { name = codes "b.zip"; size = 3 }

abbrev text : Entry
text = record zip { name = codes "readme.txt" }

abbrev directory : List Entry
directory = zip ∷ text ∷ other ∷ []

-- The file remembers the first of them, and one that is gone.
abbrev remembered : ModsDb
remembered =
    (
      codes "a.zip",
      record {
        last_write = 5;
        file_size = 2;
        hash = codes "ff";
        is_protected = true;
        exists = false;
      },
    )
    ∷ (
      codes "gone.zip",
      record {
        last_write = 5;
        file_size = 2;
        hash = codes "ee";
        is_protected = false;
        exists = false;
      },
    )
    ∷ []

hash_test : hash_file plain zip ≡ some (codes "01ff")
unfolding hash_file update_pieces hex
hash_test = refl

abbrev hashes : Entry → Option Bytes
hashes e = some e.name

listed : (refresh_files hashes directory remembered).1 ≡ mods_of hashes remembered directory
unfolding refresh_files refresh_entries refresh_entry use_remembered rehash is_mod lookup insert
    adjust
listed = refl

kept_protected :
    command_protect_mod
      (codes "b.zip" ∷ codes "true" ∷ [])
      (refresh_files hashes directory remembered)
    ≡ (true, set_protected (codes "b.zip") true (refresh_files hashes directory remembered))
unfolding command_protect_mod ensure_count refresh_files refresh_entries refresh_entry
    use_remembered rehash is_mod lookup insert adjust
kept_protected = refl

not_seen : NotSeen remembered
not_seen = NotSeen-All remembered (refl, (refl, tt))

directory-Distinct : Distinct directory
directory-Distinct = ((refl, (refl, tt)), ((refl, tt), (tt, tt)))

refresh_files-mods_of_example :
    (refresh_files hashes directory remembered).1 ≡ mods_of hashes remembered directory
refresh_files-mods_of_example = refresh_files-mods_of hashes directory remembered directory-Distinct

refresh_files-set_protected_example :
    (refresh_files hashes directory
      (set_protected (codes "b.zip") true (refresh_files hashes directory remembered)).0).1
    ≡ (set_protected (codes "b.zip") true (refresh_files hashes directory remembered)).1
unfolding lookup
refresh_files-set_protected_example =
    refresh_files-set_protected hashes directory remembered (codes "b.zip") true directory-Distinct
      (refl, (refl, tt)) not_seen

-- A path with another `.zip` in it is not counted.
totals_test :
    ((count_mods
        ((codes "R/Client/a.zip", 2) ∷ (codes "R/Client/b.txt", 9) ∷ [])
        no_mods).trimmed_list
      ≡ codes "/a;")
    × ((count_mods ((codes "R.zip/Client/a.zip", 2) ∷ []) no_mods).mods_loaded ≡ 0)
unfolding count_mods no_mods add_mod find_text find_last_of with_slashes starts_with to_string
    digits_of
totals_test = (refl, refl)
