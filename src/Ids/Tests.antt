-- ===== src/Ids/Tests.antt =====
-- The test cases of src/TServer.cpp, and the theorems at inputs that meet their hypotheses.
use beam_mp_server.Base.{◌≡◌, refl, none, some}
use beam_mp_server.Base.Decimal.{value_from, all_digits, stoi}
use beam_mp_server.Base.Text.{codes, find, up_to}
use beam_mp_server.Ids.{get_pid_vid, after_sep}

open_ids : Unit {0}
unfolding get_pid_vid after_sep all_digits stoi value_from find up_to
open_ids = tt

get_pid_vid_tests :
    (get_pid_vid (codes "0-1") ≡ some (0, 1))
    × (get_pid_vid (codes "33-23") ≡ some (33, 23))
    × (get_pid_vid (codes "") ≡ none)
    × (get_pid_vid (codes "0x0") ≡ none)
    × (get_pid_vid (codes "-0") ≡ none)
    × (get_pid_vid (codes "0-") ≡ none)
    × (get_pid_vid (codes "x-0") ≡ none)
    × (get_pid_vid (codes "0-x") ≡ none)
    × (get_pid_vid (codes "7") ≡ some (7, 7))
    × (get_pid_vid (codes "2147483648-0") ≡ none)
unfolding open_ids
get_pid_vid_tests = (refl, refl, refl, refl, refl, refl, refl, refl, refl, refl)
