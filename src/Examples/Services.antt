-- ===== src/Examples/Services.antt =====
-- The theorems about the limiter, the ids, compression, the settings, admission and downloads at
-- concrete inputs.
use beam_mp_server.Base.{◌<◌, ◌≡◌, ◌↔◌, refl, true, false, List, [], ◌∷◌, some, list_eq, nat_eq}
use beam_mp_server.Base.Dict.{lookup, insert}
use beam_mp_server.Base.Ints.{pos, negsuc}
use beam_mp_server.Base.Text.{Bytes, codes}
use beam_mp_server.Limiter.{Limiter, create, emplace, try_acquire}
use beam_mp_server.Limiter.Ledger.{
  acquired, Reach, start, next, Inv, create-Reach-Inv, try_acquire_iff,
}
use beam_mp_server.OpenId.{open_id}
use beam_mp_server.OpenId.Laws.{is_taken, open_id_least}
use beam_mp_server.Compress.{comp}
use beam_mp_server.World.{int_value}
use beam_mp_server.Session.{decide, admitted}
use beam_mp_server.Session.Admission.{decide_iff}
use beam_mp_server.Download.{SysResult, sent, interrupted, finished, send_pieces}
use beam_mp_server.Settings.{
  general_auth_key, general_name, ComposedKey, Settings, SettingValue, text_setting, initial,
  initial_values, initial_access, set, get, type_index, key_eq, composed_eq,
}
use beam_mp_server.Settings.Access.{console_run, console_run_protects}
use beam_mp_server.Examples.{stored}

abbrev home : Bytes
home = codes "127.0.0.1"

-- A limiter for two connections of one address, three in all, and one guard given out.
abbrev fresh : Limiter
fresh = record { max_per_ip = 2; max_global = 3; per_ip = []; global = 0 }

abbrev one_open : Limiter
one_open = record { max_per_ip = 2; max_global = 3; per_ip = (home, 1) ∷ []; global = 1 }

fresh_created : create 2 3 ≡ some fresh
unfolding create
fresh_created = refl

first_acquired : try_acquire home fresh ≡ (some (record { owned = true; ip = home }), one_open)
unfolding try_acquire emplace lookup insert
first_acquired = refl

one_reached :
    Reach (record { limiter = fresh; held = [] }) (record { limiter = one_open; held = home ∷ [] })
one_reached =
    next start (acquired home (record { owned = true; ip = home }) one_open first_acquired)

create-Reach-Inv_example : Inv 2 3 (record { limiter = one_open; held = home ∷ [] })
create-Reach-Inv_example =
    create-Reach-Inv 2 3 fresh (record { limiter = one_open; held = home ∷ [] }) fresh_created
      one_reached

one_open-Inv : Inv 2 3 (record { limiter = one_open; held = home ∷ [] })
one_open-Inv =
    create-Reach-Inv 2 3 fresh (record { limiter = one_open; held = home ∷ [] }) fresh_created
      one_reached

try_acquire_iff_example :
    ((1 < 3) × (1 < 2))
    ↔ ((try_acquire home one_open).0 ≡ some (record { owned = true; ip = home }))
try_acquire_iff_example =
    (try_acquire_iff 2 3 (record { limiter = one_open; held = home ∷ [] }) home one_open-Inv).0

open_id_least_example :
    is_taken (pos 0 ∷ pos 2 ∷ negsuc 0 ∷ []) (open_id (pos 0 ∷ pos 2 ∷ negsuc 0 ∷ [])) ≡ false
open_id_least_example = (open_id_least (pos 0 ∷ pos 2 ∷ negsuc 0 ∷ [])).1

stored_text : comp stored (codes "Os:") ≡ some (codes "Os:")
unfolding comp
stored_text = refl

decide_iff_example :
    (decide
      (record { allow_guests = false; client_count = 8; max_players = 8 })
      false
      (record { error = false; value = int_value (pos 2) } ∷ []))
    ≡ admitted
decide_iff_example =
    (decide_iff (record { allow_guests = false; client_count = 8; max_players = 8 }) false
        (record { error = false; value = int_value (pos 2) } ∷ [])).1
      (refl, refl, refl, refl)

-- A file of five bytes in two pieces, with an interruption between them.
three_calls : List SysResult
three_calls = sent 3 ∷ interrupted ∷ sent 2 ∷ []

all_sent : (send_pieces (codes "model") 0 three_calls).1 ≡ finished
unfolding three_calls send_pieces
all_sent = refl

auth_key_write : List (ComposedKey × SettingValue)
auth_key_write =
    (record { category = codes "General"; key = codes "AuthKey" }, text_setting (codes "mine"))
    ∷ (record { category = codes "General"; key = codes "Name" }, text_setting (codes "Ours"))
    ∷ []

console_run_protects_example :
    lookup general_auth_key (console_run auth_key_write initial).values ≡ some (text_setting [])
unfolding initial initial_values initial_access lookup
console_run_protects_example = (console_run_protects auth_key_write initial general_auth_key).1 refl

abbrev renamed : Settings
unfolding initial initial_values initial_access insert
renamed = record initial {
  values = insert general_name (text_setting (codes "Ours")) initial.values;
}

name_set : set general_name (text_setting (codes "Ours")) initial ≡ some renamed
unfolding set get initial initial_values initial_access lookup insert type_index
name_set = refl
