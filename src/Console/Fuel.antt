-- ===== src/Console/Fuel.antt =====
-- The loop over the arguments of a command takes something off the text in each round.
use beam_mp_server.Base.{
  ℕ, zero, suc, ◌≤◌, ◌<◌, ◌≡◌, refl, ap, false, ◌&&◌, [], ◌∷◌, Option, none, some, arith, ◌==◌,
  if◌then◌else◌, length, is_empty, Bool-cases, inl, inr,
}
use beam_mp_server.Base.Text.{Bytes}
use beam_mp_server.Console.{is_space, is_quote, has, skip_spaces, scan, strip_quotes, split_args}

scan_rest : (quote : Option ℕ) (s : Bytes) → length (scan quote s).1 ≤ length s
unfolding scan
scan_rest quote [] = omega arith
scan_rest none (c ∷ s) =
    let e = scan_rest (if is_quote c && has c s then some c else none) s in
    elim (Bool-cases (is_space c)) [ inl t ↦ rw t (omega arith) | inr f ↦ rw f (omega (arith, e)) ]
scan_rest (some quote) (c ∷ s) =
    let e = scan_rest (if c == quote then none else some quote) s in omega (arith, e)

-- From the first byte that is no space, a scan takes a byte at least.
scan_progress : (c : ℕ) (s : Bytes) → is_space c ≡ false → length (scan none (c ∷ s)).1 ≤ length s
unfolding scan
scan_progress c s f = rw f (scan_rest (if is_quote c && has c s then some c else none) s)

round_progress : (c : ℕ) (s : Bytes) → length (scan none (skip_spaces (c ∷ s))).1 ≤ length s
unfolding skip_spaces
round_progress c s = elim (Bool-cases (is_space c)) [
  | inl t ↦ rw t (skipped s)
  | inr f ↦ rw f (scan_progress c s f)
]
  where
    skipped : (s : Bytes) → length (scan none (skip_spaces s)).1 ≤ length s
    skipped [] = scan_rest none []
    skipped (c ∷ s) = elim (Bool-cases (is_space c)) [
      | inl t ↦ rw t (let e = skipped s in omega (arith, e))
      | inr f ↦ rw f (let e = scan_progress c s f in omega (arith, e))
    ]

-- More rounds than the text has bytes are as good as one more: the loop came to its end.
split_args_enough :
    (f g : ℕ) (s : Bytes) → length s < f → length s < g → split_args f s ≡ split_args g s
unfolding split_args
split_args_enough zero g s h k = absurd (omega arith)
split_args_enough (suc f) zero s h k = absurd (omega arith)
split_args_enough (suc f) (suc g) [] h k = refl
split_args_enough (suc f) (suc g) (c ∷ s) h k =
    let scanned = scan none (skip_spaces (c ∷ s)) in
    let e =
      split_args_enough f g scanned.1 (omega (arith, round_progress c s))
        (omega (arith, round_progress c s)) in
    ap (λ rest. if is_empty (strip_quotes scanned.0) then rest else strip_quotes scanned.0 ∷ rest) e
