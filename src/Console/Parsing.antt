-- ===== src/Console/Parsing.antt =====
-- Arguments that were quoted are read back.
use beam_mp_server.Base.{
  ℕ, zero, suc, ◌<◌, ◌≡◌, refl, ap, ◌∙◌, ◌≢◌, Bool, true, false, List, [], ◌∷◌, ◌++◌, none, some,
  arith, ◌==◌, length, length-append, take, take_append, drop_append, is_empty, All, append-nil,
}
use beam_mp_server.Base.Text.{Bytes, Free, up_to, find_first, find_absent}
use beam_mp_server.Console.{
  is_space, has, skip_spaces, onto, scan, last_is, strip_quotes, split_args, parse_command,
}

-- The arguments in double quotes, each with a space in front.
abbrev pub print_args : List Bytes → Bytes
print_args [] = []
print_args (arg ∷ args) = b' ' ∷ 34 ∷ (arg ++ 34 ∷ print_args args)

abbrev pub starts_with_space : Bytes → Bool
starts_with_space [] = true
starts_with_space (c ∷ s) = is_space c

starts_with_space-print_args : (args : List Bytes) → starts_with_space (print_args args) ≡ true
starts_with_space-print_args [] = refl
starts_with_space-print_args (a ∷ args) = refl

scan-space : (s : Bytes) → starts_with_space s ≡ true → scan none s ≡ ([], s)
unfolding scan
scan-space [] h = refl
scan-space (c ∷ s) h = ground arith

not_quote : (c : ℕ) → c ≢ 34 → (c == 34) ≡ false
not_quote c h = ground arith

scan-quoted :
    (arg rest : Bytes)
    → Free 34 arg
    → starts_with_space rest ≡ true
    → scan (some 34) (arg ++ 34 ∷ rest) ≡ (arg ++ 34 ∷ [], rest)
unfolding scan
scan-quoted [] rest h k = ap (onto 34) (scan-space rest k)
scan-quoted (c ∷ s) rest h k = rw (not_quote c h.0) (ap (onto c) (scan-quoted s rest h.1 k))

has-quote : (arg rest : Bytes) → has 34 (arg ++ 34 ∷ rest) ≡ true
has-quote [] rest = refl
has-quote (c ∷ arg) rest = ground (arith, has-quote arg rest)

last_is-quote : (c : ℕ) (arg : Bytes) → last_is 34 (c ∷ (arg ++ 34 ∷ [])) ≡ true
last_is-quote c [] = refl
last_is-quote c (b ∷ arg) = last_is-quote b arg

strip_quotes-quoted : (arg : Bytes) → strip_quotes (34 ∷ (arg ++ 34 ∷ [])) ≡ arg
unfolding strip_quotes
strip_quotes-quoted arg = rw (last_is-quote 34 arg) (
    ap (λ n. take n (arg ++ 34 ∷ [])) (omega (arith, length-append arg (34 ∷ [])))
    ∙ take_append arg (34 ∷ []))

scan-argument :
    (arg rest : Bytes)
    → Free 34 arg
    → starts_with_space rest ≡ true
    → scan none (34 ∷ (arg ++ 34 ∷ rest)) ≡ (34 ∷ (arg ++ 34 ∷ []), rest)
unfolding scan
scan-argument arg rest h k = rw (has-quote arg rest) (ap (onto 34) (scan-quoted arg rest h k))

length-print_args :
    (arg : Bytes) (args : List Bytes) → length (print_args args) < length (print_args (arg ∷ args))
length-print_args arg args = omega (arith, length-append arg (34 ∷ print_args args))

split_args-print :
    (fuel : ℕ) (args : List Bytes)
    → length (print_args args) < fuel
    → All (λ arg. Free 34 arg × (is_empty arg ≡ false)) args
    → split_args fuel (print_args args) ≡ args
unfolding split_args skip_spaces
split_args-print zero args b h = absurd (omega arith)
split_args-print (suc fuel) [] b h = refl
split_args-print (suc fuel) (arg ∷ args) b h =
    rw
      (
        scan-argument arg (print_args args) h.0.0 (starts_with_space-print_args args),
        strip_quotes-quoted arg,
        h.0.1,
      )
      (ap (◌∷◌ arg) (split_args-print fuel args (omega (arith, b, length-print_args arg args)) h.1))

parse_command-space :
    (command rest : Bytes)
    → Free b' ' command
    → parse_command (command ++ b' ' ∷ rest)
      ≡ (command, split_args (suc (length (b' ' ∷ rest))) (b' ' ∷ rest))
unfolding parse_command up_to
parse_command-space command rest h =
    rw
      (
        find_first b' ' command rest h,
        parse_command,
        take_append command (b' ' ∷ rest),
        drop_append command (b' ' ∷ rest),
      )
      refl

-- A command without a space in it, followed by arguments in double quotes that are not empty and
-- hold no double quote themselves, is taken apart into the command and these arguments, whatever
-- spaces and other quotes stand in them.
pub parse_command-print_args :
    (command : Bytes) (args : List Bytes)
    → Free b' ' command
    → All (λ arg. Free 34 arg × (is_empty arg ≡ false)) args
    → parse_command (command ++ print_args args) ≡ (command, args)
unfolding parse_command up_to
parse_command-print_args command [] h k =
    ap parse_command (append-nil command) ∙ rw (find_absent b' ' command h, parse_command) refl
parse_command-print_args command (arg ∷ args) h k =
    parse_command-space command (34 ∷ (arg ++ 34 ∷ print_args args)) h
    ∙ ap (λ xs. (command, xs))
        (split_args-print (suc (length (print_args (arg ∷ args)))) (arg ∷ args) (omega arith) k)
