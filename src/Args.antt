-- ===== src/Args.antt =====
-- include/ArgsParser.h and src/ArgsParser.cpp: the command line. The messages about arguments that
-- are not known are left out; they change nothing.
pub mod Laws
mod Tests
use beam_mp_server.Base.{
  ℕ, suc, ◌+◌, ◌-◌, Bool, true, false, not, ◌&&◌, ◌||◌, List, [], ◌∷◌, ◌++◌, Option, none, some,
  ltb, ◌==◌, if◌then◌else◌, length, take, drop, any_of, list_beq,
}
use beam_mp_server.Base.Text.{Bytes, codes, starts_with}

pub record Argument : Type 0 where
  pub name : Bytes
  pub value : Option Bytes

-- The flags `REQUIRED` and `HAS_VALUE`, one by one.
pub record RegisteredArgument : Type 0 where
  pub names : List Bytes
  pub is_required : Bool
  pub has_value : Bool

pub record ArgsParser : Type 0 where
  pub registered_arguments : List RegisteredArgument
  pub found_args : List Argument

-- `str.rfind(c)`; `none` is `npos`.
unfoldable pub rfind : ℕ → Bytes → Option ℕ
rfind c [] = none
rfind c (b ∷ s) = elim (rfind c s) [
  | some i ↦ some (suc i)
  | none ↦ if b == c then some 0 else none
]

unfoldable pub register_argument : RegisteredArgument → ArgsParser → ArgsParser
register_argument a p = record p { registered_arguments = p.registered_arguments ++ a ∷ [] }

abbrev pub add_found : Argument → ArgsParser → ArgsParser
add_found a p = record p { found_args = p.found_args ++ a ∷ [] }

-- The last `=` ends the name.
unfoldable pub consume_long_assignment : Bytes → ℕ → ArgsParser → ArgsParser
consume_long_assignment arg sep p =
    add_found (record { name = take (sep - 2) (drop 2 arg); value = some (drop (sep + 1) arg) }) p

unfoldable pub consume_long_flag : Bytes → ArgsParser → ArgsParser
consume_long_flag arg p = add_found (record { name = drop 2 arg; value = none }) p

unfoldable pub consume : Bytes → Option ℕ → ArgsParser → ArgsParser
consume arg none p = consume_long_flag arg p
consume arg (some sep) p = consume_long_assignment arg sep p

unfoldable pub parse_args : List Bytes → ArgsParser → ArgsParser
parse_args [] p = p
parse_args (arg ∷ args) p = parse_args args (
    if ltb 2 (length arg) && starts_with (codes "--") arg
    then consume arg (rfind b'=' arg) p
    else p)

abbrev pub is_named : List Bytes → Argument → Bool
is_named names a = any_of (list_beq a.name) names

unfoldable pub found_argument : List Bytes → ArgsParser → Bool
found_argument names p = any_of (is_named names) p.found_args

unfoldable pub first_value : List Bytes → List Argument → Option Bytes
first_value names [] = none
first_value names (a ∷ found) = if is_named names a then a.value else first_value names found

unfoldable pub get_value_of_argument : List Bytes → ArgsParser → Option Bytes
get_value_of_argument names p = first_value names p.found_args

abbrev pub is_given : Option Bytes → Bool
is_given none = false
is_given (some s) = true

-- One round of the loop of `Verify`.
unfoldable pub verify_argument : RegisteredArgument → ArgsParser → Bool
verify_argument a p =
    if a.is_required && not (found_argument a.names p)
    then false
    else if found_argument a.names p
    then (if a.has_value
        then is_given (get_value_of_argument a.names p)
        else not (is_given (get_value_of_argument a.names p)))
    else true

unfoldable pub verify_from : Bool → List RegisteredArgument → ArgsParser → Bool
verify_from ok [] p = ok
verify_from ok (a ∷ rs) p = verify_from (if verify_argument a p then ok else false) rs p

unfoldable pub verify : ArgsParser → Bool
verify p = verify_from true p.registered_arguments p
