-- ===== src/Vehicles/Ownership.antt =====
-- A client acts on its own vehicles only.
use beam_mp_server.Base.{
  ℕ, ◌^◌, ◌<◌, ◌≡◌, ◌≢◌, refl, true, false, [], ◌∷◌, ◌++◌, some, arith, ◌==◌, length, drop,
  take_append, All-append, nat_eq, is_empty,
}
use beam_mp_server.Base.Dict.{lookup}
use beam_mp_server.Base.Decimal.{to_string, all_digits-to_string, digits-Free}
use beam_mp_server.Base.Ints.{is_id}
use beam_mp_server.Base.Text.{Bytes, find_from, up_to, find_first, Free}
use beam_mp_server.Ids.Laws.{print_ids, get_pid_vid-print_ids}
use beam_mp_server.Client.{Client}
use beam_mp_server.World.{Outside, World, ◌>>=◌, done, fetch, or_throw}
use beam_mp_server.Vehicles.{ids_of, act_on, names_vehicle, parse_vehicle_code, parse_vehicle}

pub print_ids-Free : (p v : ℕ) → Free b':' (print_ids p v)
print_ids-Free p v =
    All-append (λ b. b ≢ b':') (to_string p) (b'-' ∷ to_string v)
      (digits-Free b':' (to_string p) refl (all_digits-to_string p))
      ((λ e. absurd (omega arith)), digits-Free b':' (to_string v) refl (all_digits-to_string v))

find_from_first :
    (s rest : Bytes)
    → is_empty s ≡ false
    → Free b':' s
    → find_from b':' 1 (s ++ b':' ∷ rest) ≡ some (length s)
unfolding find_from
find_from_first [] rest h f = absurd (ground arith)
find_from_first (x ∷ s) rest h f = rw (find_first b':' s rest f.1) (ground arith)

print_ids_some : (p v : ℕ) → is_empty (print_ids p v) ≡ false
print_ids_some p v = go (to_string p)
  where
    go : (s : Bytes) → is_empty (s ++ b'-' ∷ to_string v) ≡ false
    go [] = refl
    go (x ∷ s) = refl

ids_of-print_ids :
    (p v : ℕ) (rest : Bytes)
    → p < 2 ^ 31
    → v < 2 ^ 31
    → ids_of (print_ids p v ++ b':' ∷ rest) ≡ some (p, v)
unfolding ids_of up_to
ids_of-print_ids p v rest hp hv =
    rw
      (
        find_from_first (print_ids p v) rest (print_ids_some p v) (print_ids-Free p v),
        take_append (print_ids p v) (b':' ∷ rest),
      )
      (get_pid_vid-print_ids p v hp hv)

module _ {J : Type 0} (o : Outside J) (h : ℕ) where
  act_on_other :
      (code : ℕ) (body s : Bytes) (p v : ℕ) (c : Client J) (w : World J)
      → names_vehicle code ≡ true
      → ids_of body ≡ some (p, v)
      → lookup h w.store ≡ some c
      → is_id c.id p ≡ false
      → drop 3 s ≡ body
      → (parse_vehicle_code o code h s w).1 ≡ w
  unfolding parse_vehicle_code act_on ◌>>=◌ fetch or_throw done
  act_on_other code body s p v c w e ids found other d =
      rw (not_spawn, not_move, e, found, d, ids, other) refl
    where
      not_spawn : (code == b's') ≡ false
      not_spawn = ground arith

      not_move : (code == b'm') ≡ false
      not_move = ground arith

  -- A packet with the code `c` (edit), `d` (delete), `r` (reset), `t` or `p` (paint) whose first id is
  -- not the id of the client that sent it, both ids fitting an `int`: nothing is changed, sent or
  -- triggered.
  pub parse_vehicle_not_own :
      (code z p v : ℕ) (rest : Bytes) (c : Client J) (w : World J)
      → names_vehicle code ≡ true
      → p < 2 ^ 31
      → v < 2 ^ 31
      → lookup h w.store ≡ some c
      → is_id c.id p ≡ false
      → (parse_vehicle o h (b'O' ∷ code ∷ z ∷ print_ids p v ++ b':' ∷ rest) w).1 ≡ w
  unfolding parse_vehicle done
  parse_vehicle_not_own code z p v rest c w e hp hv found other = ground (
    arith,
    act_on_other code (print_ids p v ++ b':' ∷ rest)
        (b'O' ∷ code ∷ z ∷ print_ids p v ++ b':' ∷ rest) p v c w e (ids_of-print_ids p v rest hp hv)
        found other refl,
  )
