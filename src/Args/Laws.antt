-- ===== src/Args/Laws.antt =====
-- What the command line gives, and when it is in order.
use beam_mp_server.Base.{
  ℕ, ◌+◌, ◌-◌, ◌≡◌, ◌↔◌, refl, sym, ap, ◌∙◌, Bool, true, false, List, [], ◌∷◌, ◌++◌, none, some,
  arith, ltb, if◌then◌else◌, length, length-append, take, drop, take_append, drop_append, All,
  append_assoc,
}
use beam_mp_server.Base.Text.{Bytes, codes, starts_with, Free}
use beam_mp_server.Args.{
  RegisteredArgument, ArgsParser, rfind, add_found, consume_long_assignment, consume, parse_args,
  found_argument, get_value_of_argument, is_given, verify_argument, verify_from, verify,
}

rfind-none : (c : ℕ) (s : Bytes) → Free c s → rfind c s ≡ none
unfolding rfind
rfind-none c [] h = refl
rfind-none c (b ∷ s) h = rw (rfind-none c s h.1) (ground arith)

rfind_last : (c : ℕ) (s t : Bytes) → Free c t → rfind c (s ++ c ∷ t) ≡ some (length s)
unfolding rfind
rfind_last c [] t h = rw (rfind-none c t h) (ground arith)
rfind_last c (b ∷ s) t h = rw (rfind_last c s t h) refl

drop_sep : (s t : Bytes) (c n : ℕ) → n ≡ length s + 1 → drop n (s ++ c ∷ t) ≡ t
drop_sep s t c n e =
    ap (λ k. drop k (s ++ c ∷ t)) (e ∙ sym (length-append s (c ∷ [])))
    ∙ ap (drop (length (s ++ c ∷ []))) (sym (append_assoc s (c ∷ []) t))
    ∙ drop_append (s ++ c ∷ []) t

take_sep : (s t : Bytes) (n : ℕ) → n ≡ length s → take n (s ++ t) ≡ s
take_sep s t n e = ap (λ k. take k (s ++ t)) e ∙ take_append s t

long_enough : (name value : Bytes) → ltb 2 (length (codes "--" ++ name ++ b'=' ∷ value)) ≡ true
long_enough name value = ground (arith, length-append name (b'=' ∷ value))

-- An argument of two dashes, a name, `=` and a value with no `=` in it: one argument of that name
-- and value is added behind those found before, whatever the name.
pub parse_args-assignment :
    (name value : Bytes) (p : ArgsParser)
    → Free b'=' value
    → parse_args ((codes "--" ++ name ++ b'=' ∷ value) ∷ []) p
      ≡ add_found (record { name = name; value = some value }) p
unfolding parse_args consume consume_long_assignment starts_with
parse_args-assignment name value p h = rw (
  long_enough name value,
  rfind_last b'=' (codes "--" ++ name) value h,
  take_sep name (b'=' ∷ value) (length (codes "--" ++ name) - 2) (omega arith),
  drop_sep (codes "--" ++ name) value b'=' (length (codes "--" ++ name) + 1) refl,
)

-- What a registered argument asks for: it is there if it must be, and if it is there, it has a
-- value exactly if it takes one.
pub record IsSatisfied (p : ArgsParser) (a : RegisteredArgument) : Type 0 where
  pub present : a.is_required ≡ true → found_argument a.names p ≡ true
  pub valued :
      found_argument a.names p ≡ true → is_given (get_value_of_argument a.names p) ≡ a.has_value

verify_argument_iff :
    (a : RegisteredArgument) (p : ArgsParser) → (verify_argument a p ≡ true) ↔ IsSatisfied p a
unfolding verify_argument
verify_argument_iff a p = (
  (λ e. record { present = ground arith; valued = ground arith }),
  (λ s. ground (arith, s.present, s.valued)),
)

verify_from_iff :
    (ok : Bool) (rs : List RegisteredArgument) (p : ArgsParser)
    → (verify_from ok rs p ≡ true) ↔ ((ok ≡ true) × All (IsSatisfied p) rs)
unfolding verify_from
verify_from_iff ok [] p = ground arith
verify_from_iff ok (a ∷ rs) p = ground (
  arith,
  verify_argument_iff a p,
  verify_from_iff (if verify_argument a p then ok else false) rs p,
)

-- The command line is accepted exactly if every registered argument has what it asks for.
verify_iff : (p : ArgsParser) → (verify p ≡ true) ↔ All (IsSatisfied p) p.registered_arguments
unfolding verify
verify_iff p = ground (arith, verify_from_iff true p.registered_arguments p)
