-- ===== src/Base/Decimal.antt =====
-- Decimal numbers: `std::to_string` of a number that is not negative, and `std::stoi` of a text of
-- digits.
use Prim.Native.Nat.{ℕ, zero, suc, ◌+◌, ◌-◌, ◌*◌, ◌/◌, ◌%◌, ◌^◌, ◌<◌}
use mathlib.Core.Path.{◌≡◌, refl, ◌∙◌}
use mathlib.Core.Logic.{inl, inr}
use mathlib.Core.Bool.{Bool, true, false, ◌&&◌}
use mathlib.Core.Option.{Option, none, some}
use mathlib.Core.List.{[], ◌∷◌, ◌++◌}
use native.Mathlib.Omega.{arith}
use beam_mp_server.Base.Tests.{leb, ltb, if◌then◌else◌, Bool-cases}
use beam_mp_server.Base.Lists.{is_empty}
use beam_mp_server.Base.Text.{Bytes, Free}

abbrev pub is_digit : ℕ → Bool
is_digit c = leb 48 c && leb c 57

-- `find_first_not_of("0123456789") == npos`.
unfoldable pub all_digits : Bytes → Bool
all_digits [] = true
all_digits (c ∷ s) = is_digit c && all_digits s

-- Each number has fewer digits than its value plus one.
unfoldable pub digits_of : ℕ → ℕ → Bytes
digits_of zero n = []
digits_of (suc f) n =
    let more = digits_of f (n / 10) ++ (48 + n % 10) ∷ [] in
    if ltb n 10 then (48 + n) ∷ [] else more

unfoldable pub to_string : ℕ → Bytes
unfolding digits_of
to_string n = digits_of (suc n) n

unfoldable pub value_from : ℕ → Bytes → ℕ
value_from acc [] = acc
value_from acc (c ∷ s) = value_from (acc * 10 + (c - 48)) s

-- `std::stoi`; `none` is the exception, for no digit or a value that is no `int`.
unfoldable pub stoi : Bytes → Option ℕ
stoi s =
    if is_empty s
    then none
    else if ltb (value_from 0 s) (2 ^ 31)
    then some (value_from 0 s)
    else none

value_from-append :
    (acc : ℕ) (s t : Bytes) → value_from acc (s ++ t) ≡ value_from (value_from acc s) t
unfolding value_from
value_from-append acc [] t = refl
value_from-append acc (c ∷ s) t = value_from-append (acc * 10 + (c - 48)) s t

value-digits_of : (f n : ℕ) → n < f → value_from 0 (digits_of f n) ≡ n
unfolding digits_of value_from
value-digits_of zero n h = absurd (omega arith)
value-digits_of (suc f) n h = elim (Bool-cases (ltb n 10)) [
  | inl small ↦ rw small (omega arith)
  | inr big ↦ rw big (
      value_from-append 0 (digits_of f (n / 10)) ((48 + n % 10) ∷ [])
      ∙ ground (arith, value-digits_of f (n / 10)))
]

all_digits-append :
    (s t : Bytes) → all_digits s ≡ true → all_digits t ≡ true → all_digits (s ++ t) ≡ true
unfolding all_digits
all_digits-append [] t h k = k
all_digits-append (c ∷ s) t h k = ground (arith, all_digits-append s t)

all_digits-digits_of : (f n : ℕ) → all_digits (digits_of f n) ≡ true
unfolding digits_of all_digits
all_digits-digits_of zero n = refl
all_digits-digits_of (suc f) n = ground (
  arith,
  all_digits-append (digits_of f (n / 10)) ((48 + n % 10) ∷ []) (all_digits-digits_of f (n / 10)),
)

pub all_digits-to_string : (n : ℕ) → all_digits (to_string n) ≡ true
unfolding to_string
all_digits-to_string n = all_digits-digits_of (suc n) n

append_not_empty : (s : Bytes) (c : ℕ) → is_empty (s ++ c ∷ []) ≡ false
append_not_empty [] c = refl
append_not_empty (b ∷ s) c = refl

pub is_empty-to_string : (n : ℕ) → is_empty (to_string n) ≡ false
unfolding to_string digits_of
is_empty-to_string n = ground (arith, append_not_empty (digits_of n (n / 10)) (48 + n % 10))

-- `stoi` reads what `to_string` printed.
pub stoi-to_string : (n : ℕ) → n < 2 ^ 31 → stoi (to_string n) ≡ some n
unfolding stoi
stoi-to_string n h = ground (arith, is_empty-to_string n, value)
  where
    value : value_from 0 (to_string n) ≡ n
    value = unfold to_string in value-digits_of (suc n) n (omega arith)

pub stoi_bound : (s : Bytes) (n : ℕ) → stoi s ≡ some n → n < 2 ^ 31
unfolding stoi
stoi_bound s n h = ground arith

-- A text of digits is free of any other byte.
pub digits-Free : (c : ℕ) (s : Bytes) → is_digit c ≡ false → all_digits s ≡ true → Free c s
unfolding all_digits
digits-Free c [] h k = tt
digits-Free c (b ∷ s) h k = (ground arith, digits-Free c s h (ground arith))
