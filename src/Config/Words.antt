-- ===== src/Config/Words.antt =====
-- `std::strtol`, and the conversion of a `long` to an `int`, on which src/TConfig.cpp relies.
use beam_mp_server.Base.{ℕ, ◌-◌, ◌%◌, ◌^◌, ◌<◌, min, ◌≡◌, [], ◌∷◌, ltb, ◌==◌, if◌then◌else◌, arith}
use beam_mp_server.Base.Ints.{ℤ, pos, negsuc}
use beam_mp_server.Base.Text.{Bytes}
use beam_mp_server.Console.{skip_spaces}
use beam_mp_server.Console.SettingsCommand.{leading, opposite}

-- The `int` with the given 32 bits.
abbrev pub int_of_bits : ℕ → ℤ
int_of_bits m = if ltb m (2 ^ 31) then pos m else negsuc (2 ^ 32 - 1 - m)

unfoldable pub wrap : ℤ → ℤ
wrap (pos n) = int_of_bits (n % 2 ^ 32)
wrap (negsuc n) = int_of_bits (2 ^ 32 - 1 - n % 2 ^ 32)

abbrev pub Fits : ℤ → Type 0
Fits (pos n) = n < 2 ^ 31
Fits (negsuc n) = n < 2 ^ 31

pub wrap-Fits' : (i : ℤ) → Fits i → wrap i ≡ i
unfolding wrap
wrap-Fits' (pos n) h = ground arith
wrap-Fits' (negsuc n) h = ground arith

pub wrap-Fits : (i : ℤ) → Fits (wrap i)
unfolding wrap
wrap-Fits (pos n) = ground arith
wrap-Fits (negsuc n) = ground arith

abbrev signed : Bytes → ℤ
signed [] = pos 0
signed (c ∷ s) =
    if c == b'-'
    then opposite (min (leading 0 s) (2 ^ 63))
    else if c == b'+'
    then pos (min (leading 0 s) (2 ^ 63 - 1))
    else pos (min (leading 0 (c ∷ s)) (2 ^ 63 - 1))

-- Base 10: white space, a sign and digits; 0 without digits, and the nearest bound out of range.
unfoldable pub strtol : Bytes → ℤ
strtol s = signed (skip_spaces s)
