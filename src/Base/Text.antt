-- ===== src/Base/Text.antt =====
-- `std::string` and `std::vector<uint8_t>` as lists of bytes.
use Prim.Native.Nat.{ℕ, suc, ◌+◌}
use Prim.Native.Char.{code}
use Prim.Native.String.{String}
use mathlib.Core.Path.{◌≡◌, refl}
use mathlib.Core.Logic.{◌≢◌}
use mathlib.Core.Bool.{Bool, true, false}
use mathlib.Core.Option
use mathlib.Core.Option.{Option, none, some}
use mathlib.Core.List.{List, [], ◌∷◌, ◌++◌}
use native.Mathlib.Omega.{arith}
use beam_mp_server.Base.Tests.{◌==◌, leb, if◌then◌else◌}
use beam_mp_server.Base.Lists.{length, take, drop, All}

abbrev pub Bytes : Type 0
Bytes = List ℕ

-- The bytes of a literal.
abbrev pub codes : String → Bytes
codes String.[] = []
codes (String.◌∷◌ c s) = code c ∷ codes s

-- `str.find(c)`; `none` is `npos`.
unfoldable pub find : ℕ → Bytes → Option ℕ
find c [] = none
find c (b ∷ s) = if b == c then some 0 else Option.map suc (find c s)

-- `str.find(c, from)`.
unfoldable pub find_from : ℕ → ℕ → Bytes → Option ℕ
find_from c from s = Option.map (λ i. i + from) (find c (drop from s))

-- `str.substr(from)`; `none` is `std::out_of_range`.
unfoldable pub substr : ℕ → Bytes → Option Bytes
substr from s = if leb from (length s) then some (drop from s) else none

-- `str.substr(0, end)` for the result `end` of a `find`.
unfoldable pub up_to : Option ℕ → Bytes → Bytes
up_to none s = s
up_to (some n) s = take n s

-- `std::equal` of the first bytes with `prefix`, once the size is known to be enough.
unfoldable pub starts_with : Bytes → Bytes → Bool
starts_with [] s = true
starts_with (a ∷ p) [] = false
starts_with (a ∷ p) (b ∷ s) = if b == a then starts_with p s else false

abbrev pub Free : ℕ → Bytes → Type 0
Free c = All (λ b. b ≢ c)

-- `find` meets the first occurrence.
pub find_first : (c : ℕ) (s rest : Bytes) → Free c s → find c (s ++ c ∷ rest) ≡ some (length s)
unfolding find
find_first c [] rest h = ground arith
find_first c (b ∷ s) rest h = ground (arith, find_first c s rest h.1)

pub find_absent : (c : ℕ) (s : Bytes) → Free c s → find c s ≡ none
unfolding find
find_absent c [] h = refl
find_absent c (b ∷ s) h = ground (arith, find_absent c s h.1)

pub starts_with_append : (p s : Bytes) → starts_with p (p ++ s) ≡ true
unfolding starts_with
starts_with_append [] s = refl
starts_with_append (a ∷ p) s = ground (arith, starts_with_append p s)
