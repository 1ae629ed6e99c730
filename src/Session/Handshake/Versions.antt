-- ===== src/Session/Handshake/Versions.antt =====
-- Which version packets the handshake lets in.
use beam_mp_server.Base.{
  ℕ, ◌<◌, ◌≡◌, refl, sym, ap, ◌∙◌, Bool, true, false, [], ◌∷◌, ◌++◌, Option, none, some, arith, ltb,
  if◌then◌else◌, length, length-append, drop, is_empty, append_assoc,
}
use beam_mp_server.Base.Decimal.{to_string, digits_of, is_empty-to_string}
use beam_mp_server.Base.Text.{Bytes, codes, starts_with}
use beam_mp_server.Versions.{Version, as_string, is_outdated}
use beam_mp_server.Versions.Parsing.{version_str_to_ints-as_string}
use beam_mp_server.Session.Handshake.{version_refusal}

abbrev pub is_refusal : Option Bytes → Bool
is_refusal none = false
is_refusal (some why) = true

-- The version of a launcher, which sends two numbers.
abbrev pub launcher : ℕ → ℕ → Version
launcher a b = record { major = a; minor = b; patch = 0 }

abbrev pub version_packet : ℕ → ℕ → Bytes
version_packet a b = codes "VC" ++ to_string a ++ codes "." ++ to_string b

zero_text : codes "0" ≡ to_string 0
unfolding to_string digits_of
zero_text = refl

full_version : (a b : ℕ) → drop 2 (version_packet a b) ++ codes ".0" ≡ as_string (launcher a b)
unfolding as_string
full_version a b =
    sym (append_assoc (to_string a ++ codes "." ++ to_string b) (codes ".") (codes "0"))
    ∙ ap (λ z. to_string a ++ codes "." ++ to_string b ++ codes "." ++ z) zero_text

not_short :
    (s t : Bytes)
    → is_empty s ≡ false
    → is_empty t ≡ false
    → ltb 3 (length (codes "VC" ++ s ++ codes "." ++ t)) ≡ true
not_short [] t p q = absurd (ground arith)
not_short (c ∷ s) [] p q = absurd (ground arith)
not_short (c ∷ s) (d ∷ t) p q =
    ground (arith, length-append (s ++ codes ".") (d ∷ t), length-append s (codes "."))

starts_vc : (s t : Bytes) → starts_with (codes "VC") (codes "VC" ++ s ++ codes "." ++ t) ≡ true
unfolding starts_with
starts_vc s t = refl

is_refusal-if : (d : Bool) (why : Bytes) → is_refusal (if d then some why else none) ≡ d
is_refusal-if true why = refl
is_refusal-if false why = refl

-- A launcher that sends its version as two numbers that are bytes is turned away by the version
-- handshake exactly if its version, with a third number of 0, is outdated against the oldest that is
-- let in; whatever the memory held.
version_refusal_iff :
    (memory min_version : Version) (a b : ℕ)
    → a < 256
    → b < 256
    → is_refusal (version_refusal memory min_version (version_packet a b))
      ≡ is_outdated (launcher a b) min_version
unfolding version_refusal
version_refusal_iff memory min_version a b p q =
    rw
      (
        not_short (to_string a) (to_string b) (is_empty-to_string a) (is_empty-to_string b),
        starts_vc (to_string a) (to_string b),
        full_version a b,
        version_str_to_ints-as_string memory (launcher a b) p q (omega arith),
      )
      (is_refusal-if (is_outdated (launcher a b) min_version) _)
