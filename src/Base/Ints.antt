-- ===== src/Base/Ints.antt =====
-- The values of a C++ `int` that the program compares and prints: ids, with -1 for "none yet".
use Prim.Native.Nat.{ℕ}
use mathlib.Core.Path.{◌≡◌}
use mathlib.Core.Logic.{◌↔◌}
use mathlib.Core.Bool.{Bool, true, false}
use native.Mathlib.Omega.{arith}
use beam_mp_server.Base.Tests.{◌==◌, ltb}

-- `negsuc n` is -(n + 1).
pub data ℤ : Type 0 where
  pos : ℕ → ℤ
  negsuc : ℕ → ℤ

abbrev pub is_id : ℤ → ℕ → Bool
is_id (pos m) n = m == n
is_id (negsuc m) n = false

abbrev pub is_negative : ℤ → Bool
is_negative (pos m) = false
is_negative (negsuc m) = true

-- An `int` against a count.
abbrev pub below : ℕ → ℤ → Bool
below n (pos m) = ltb n m
below n (negsuc m) = false

pub is_id_iff : (i : ℤ) (n : ℕ) → (is_id i n ≡ true) ↔ (i ≡ pos n)
is_id_iff (pos m) n = ground arith
is_id_iff (negsuc m) n = ground arith
