-- ===== src/Ids/Laws.antt =====
-- The ids that a client prints are the ids that the server reads.
use beam_mp_server.Base.{
  ℕ, ◌+◌, ◌-◌, ◌^◌, ◌<◌, ◌≡◌, refl, sym, ap, ◌∙◌, ◌≢◌, [], ◌∷◌, ◌++◌, some, arith, length, take,
  drop, length-append, take_append, drop_append, append_assoc, All-append,
}
use beam_mp_server.Base.Decimal.{
  to_string, stoi, stoi-to_string, stoi_bound, all_digits-to_string, digits-Free,
}
use beam_mp_server.Base.Text.{Bytes, codes, find, up_to, find_first, find_absent, Free}
use beam_mp_server.Ids.{after_sep, both, get_pid_vid, position_at, parse_position_packet}

-- The text of the ids of a vehicle.
abbrev pub print_ids : ℕ → ℕ → Bytes
print_ids p v = to_string p ++ b'-' ∷ to_string v

module _ (p : ℕ) where
  no_dash : Free b'-' (to_string p)
  no_dash = digits-Free b'-' (to_string p) refl (all_digits-to_string p)

  no_brace : Free b'{' (to_string p)
  no_brace = digits-Free b'{' (to_string p) refl (all_digits-to_string p)

drop_past : (s t : Bytes) (c : ℕ) → drop (length s + 1) (s ++ c ∷ t) ≡ t
drop_past s t c =
    ap (λ k. drop k (s ++ c ∷ t)) (omega (arith, length-append s (c ∷ [])))
    ∙ ap (drop (length (s ++ c ∷ []))) (sym (append_assoc s (c ∷ []) t))
    ∙ drop_append (s ++ c ∷ []) t

-- Ids that fit an `int`, printed with a dash between them, are read back.
pub get_pid_vid-print_ids :
    (p v : ℕ) → p < 2 ^ 31 → v < 2 ^ 31 → get_pid_vid (print_ids p v) ≡ some (p, v)
unfolding get_pid_vid up_to after_sep
get_pid_vid-print_ids p v hp hv = rw (
  find_first b'-' (to_string p) (to_string v) (no_dash p),
  take_append (to_string p) (b'-' ∷ to_string v),
  drop_past (to_string p) (to_string v) b'-',
  all_digits-to_string p,
  all_digits-to_string v,
  stoi-to_string p hp,
  stoi-to_string v hv,
)

-- A single number with no dash is read too, as the pair of that number with itself.
get_pid_vid_no_dash : (n : ℕ) → n < 2 ^ 31 → get_pid_vid (to_string n) ≡ some (n, n)
unfolding get_pid_vid up_to after_sep
get_pid_vid_no_dash n h =
    rw (find_absent b'-' (to_string n) (no_dash n), all_digits-to_string n, stoi-to_string n h)

both_bound :
    (a b : Bytes) (p v : ℕ) → both (stoi a) (stoi b) ≡ some (p, v) → (p < 2 ^ 31) × (v < 2 ^ 31)
both_bound a b p v h = ground (arith, stoi_bound a p, stoi_bound b v)

-- Whatever the text, ids that were read fit an `int`.
pub get_pid_vid_bounds :
    (s : Bytes) (p v : ℕ) → get_pid_vid s ≡ some (p, v) → (p < 2 ^ 31) × (v < 2 ^ 31)
unfolding get_pid_vid
get_pid_vid_bounds s p v h =
    both_bound (up_to (find b'-' s) s) (after_sep (find b'-' s) s) p v (ground arith)

-- The first brace after a text free of braces and its colon.
brace_place :
    (s rest : Bytes) → Free b'{' s → find b'{' (s ++ b':' ∷ b'{' ∷ rest) ≡ some (length s + 1)
unfolding find
brace_place [] rest h = ground arith
brace_place (c ∷ s) rest h = ground (arith, brace_place s rest h.1)

take_before : (s t : Bytes) → take (length s + 1 - 1) (s ++ t) ≡ s
take_before s t = ap (λ k. take k (s ++ t)) (omega arith) ∙ take_append s t

-- A position packet that was printed from ids that fit an `int` and a text that begins with a
-- brace gives back the ids and the text.
pub parse_position_packet_print :
    (p v : ℕ) (rest : Bytes)
    → p < 2 ^ 31
    → v < 2 ^ 31
    → parse_position_packet (codes "Zp:" ++ print_ids p v ++ b':' ∷ b'{' ∷ rest)
      ≡ some (record { pid = p; vid = v; body = b'{' ∷ rest })
unfolding parse_position_packet position_at
parse_position_packet_print p v rest hp hv = rw (brace_place (print_ids p v) rest free) (
    ground (
      arith,
      take_before (print_ids p v) (b':' ∷ b'{' ∷ rest),
      drop_past (print_ids p v) (b'{' ∷ rest) b':',
      get_pid_vid-print_ids p v hp hv,
    ))
  where
    free : Free b'{' (print_ids p v)
    free =
        All-append (λ b. b ≢ b'{') (to_string p) (b'-' ∷ to_string v) (no_brace p)
          ((λ e. absurd (omega arith)), no_brace v)
