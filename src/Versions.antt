-- ===== src/Versions.antt =====
-- `Version` of include/Common.h, and `Application::VersionStrToInts` and `IsOutdated` of
-- src/Common.cpp, by which the server refuses launchers that are too old.
pub mod Order
pub mod Parsing
mod Tests
use beam_mp_server.Base.{
  ℕ, suc, ◌+◌, Bool, true, false, ◌&&◌, List, [], ◌∷◌, ◌++◌, Option, none, some, ltb, leb, ◌==◌,
  if◌then◌else◌, drop, length, is_empty,
}
use beam_mp_server.Base.Decimal.{to_string, is_digit, value_from}
use beam_mp_server.Base.Text.{Bytes, codes, find, up_to}

-- The three numbers are of type `uint8_t`.
pub record Version : Type 0 where
  pub major : ℕ
  pub minor : ℕ
  pub patch : ℕ

unfoldable pub as_string : Version → Bytes
as_string v = to_string v.major ++ codes "." ++ to_string v.minor ++ codes "." ++ to_string v.patch

unfoldable pub is_outdated : Version → Version → Bool
is_outdated current newest =
    if ltb current.major newest.major
    then true
    else if newest.major == current.major && ltb current.minor newest.minor
    then true
    else if newest.major == current.major
        && newest.minor == current.minor
        && ltb current.patch newest.patch
    then true
    else false

-- `std::getline(ss, part, '.')`: the part, and what is left of the stream.
unfoldable pub next_part : Bytes → Bytes × Bytes
next_part s = elim (find b'.' s) [ none ↦ (s, []) | some i ↦ (up_to (some i) s, drop (suc i) s) ]

unfoldable pub leading_digits : Bytes → Bytes
leading_digits [] = []
leading_digits (c ∷ s) = let more = leading_digits s in if is_digit c then c ∷ more else []

-- `std::from_chars` into a `uint8_t` that holds `old`: it is left alone where no digit stands first
-- and where the number does not fit.
unfoldable pub from_chars : ℕ → Bytes → ℕ
from_chars old s =
    let digits = leading_digits s in
    if is_empty digits
    then old
    else if ltb (value_from 0 digits) 256
    then value_from 0 digits
    else old

-- The array is not initialised: `memory` is what it holds at first.
unfoldable pub version_str_to_ints : Version → Bytes → Version
version_str_to_ints memory s =
    let first = next_part s in
    let second = next_part first.1 in
    let third = next_part second.1 in
    record {
      major = from_chars memory.major first.0;
      minor = from_chars memory.minor second.0;
      patch = from_chars memory.patch third.0;
    }
