-- ===== src/Args/Tests.antt =====
-- A command line, and the theorems about command lines at it.
use beam_mp_server.Base.{◌≡◌, refl, true, [], ◌∷◌, none, some, arith}
use beam_mp_server.Base.Text.{codes, starts_with, Free}
use beam_mp_server.Args.{
  ArgsParser, rfind, add_found, consume, consume_long_assignment, consume_long_flag, parse_args,
}

abbrev empty : ArgsParser
empty = record {
  registered_arguments =
      record { names = codes "config" ∷ codes "c" ∷ []; is_required = true; has_value = true } ∷ [];
  found_args = [];
}

abbrev configured : ArgsParser
configured = add_found (record { name = codes "c"; value = some (codes "a.toml") }) empty

parse_args_tests :
    (parse_args (codes "--help" ∷ codes "-x" ∷ []) empty
      ≡ add_found (record { name = codes "help"; value = none }) empty)
    × (parse_args (codes "--c=a.toml" ∷ []) empty ≡ configured)
unfolding parse_args starts_with rfind consume consume_long_assignment consume_long_flag
parse_args_tests = (refl, refl)

toml-Free : Free b'=' (codes "toml")
toml-Free = ground arith
