-- ===== src/Versions/Parsing.antt =====
-- A version that was printed is read back.
use beam_mp_server.Base.{
  ℕ, suc, ◌^◌, ◌<◌, ◌≡◌, refl, ap, ◌∙◌, true, [], ◌∷◌, ◌++◌, arith, length, drop, take_append,
  append_assoc,
}
use beam_mp_server.Base.Decimal.{
  to_string, all_digits, value_from, all_digits-to_string, is_empty-to_string, stoi, stoi-to_string,
  digits-Free,
}
use beam_mp_server.Base.Text.{Bytes, Free, codes, up_to, find_first, find_absent}
use beam_mp_server.Versions.{
  Version, as_string, next_part, leading_digits, from_chars, version_str_to_ints,
}

leading_digits-all : (s : Bytes) → all_digits s ≡ true → leading_digits s ≡ s
unfolding leading_digits all_digits
leading_digits-all [] h = refl
leading_digits-all (c ∷ s) h = ground (arith, leading_digits-all s)

value_from-to_string : (n : ℕ) → n < 2 ^ 31 → value_from 0 (to_string n) ≡ n
unfolding stoi
value_from-to_string n h = ground (arith, is_empty-to_string n, stoi-to_string n h)

from_chars-to_string : (old n : ℕ) → n < 256 → from_chars old (to_string n) ≡ n
unfolding from_chars
from_chars-to_string old n h =
    rw
      (
        leading_digits-all (to_string n) (all_digits-to_string n),
        is_empty-to_string n,
        value_from-to_string n (omega arith),
      )
      (ground arith)

drop_after : (s rest : Bytes) (c : ℕ) → drop (suc (length s)) (s ++ c ∷ rest) ≡ rest
drop_after [] rest c = refl
drop_after (b ∷ s) rest c = drop_after s rest c

next_part-dot : (s rest : Bytes) → Free b'.' s → next_part (s ++ b'.' ∷ rest) ≡ (s, rest)
unfolding next_part up_to
next_part-dot s rest h =
    rw (find_first b'.' s rest h, next_part, take_append s (b'.' ∷ rest), drop_after s rest b'.')
      refl

next_part-last : (s : Bytes) → Free b'.' s → next_part s ≡ (s, [])
unfolding next_part
next_part-last s h = rw (find_absent b'.' s h, next_part) refl

number-Free : (n : ℕ) → Free b'.' (to_string n)
number-Free n = digits-Free b'.' (to_string n) refl (all_digits-to_string n)

version_str_to_ints-parts :
    (memory : Version) (a b c : Bytes)
    → Free b'.' a
    → Free b'.' b
    → Free b'.' c
    → version_str_to_ints memory (a ++ b'.' ∷ (b ++ b'.' ∷ c)) ≡ record {
      major = from_chars memory.major a;
      minor = from_chars memory.minor b;
      patch = from_chars memory.patch c;
    }
unfolding version_str_to_ints
version_str_to_ints-parts memory a b c p q r =
    rw (next_part-dot a (b ++ b'.' ∷ c) p, next_part-dot b c q, next_part-last c r) refl

dots : (a b c : Bytes) → a ++ codes "." ++ b ++ codes "." ++ c ≡ a ++ b'.' ∷ (b ++ b'.' ∷ c)
dots a b c =
    append_assoc (a ++ codes "." ++ b) (codes ".") c
    ∙ append_assoc (a ++ codes ".") b (b'.' ∷ c)
    ∙ append_assoc a (codes ".") (b ++ b'.' ∷ c)

same_version :
    (v : Version) (a b c : ℕ)
    → a ≡ v.major
    → b ≡ v.minor
    → c ≡ v.patch
    → record { major = a; minor = b; patch = c } ≡ v
same_version v a b c p q r = λ i. record { major = p i; minor = q i; patch = r i }

-- A version of three bytes that was printed is read back, whatever the memory of the array held.
pub version_str_to_ints-as_string :
    (memory v : Version)
    → v.major < 256
    → v.minor < 256
    → v.patch < 256
    → version_str_to_ints memory (as_string v) ≡ v
unfolding as_string
version_str_to_ints-as_string memory v a b c =
    ap (version_str_to_ints memory)
      (dots (to_string v.major) (to_string v.minor) (to_string v.patch))
    ∙ version_str_to_ints-parts memory (to_string v.major) (to_string v.minor) (to_string v.patch)
        (number-Free v.major) (number-Free v.minor) (number-Free v.patch)
    ∙ same_version v _ _ _ (from_chars-to_string memory.major v.major a)
        (from_chars-to_string memory.minor v.minor b) (from_chars-to_string memory.patch v.patch c)
