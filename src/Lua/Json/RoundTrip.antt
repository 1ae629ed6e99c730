-- ===== src/Lua/Json/RoundTrip.antt =====
-- A document that `JsonDecode` makes a table of, and that `JsonEncode` makes of that table again.
use beam_mp_server.Base.{
  ℕ, suc, ◌≡◌, refl, sym, ap, ◌∙◌, true, false, [], ◌∷◌, ◌++◌, Option, none, some, arith,
  list_beq_iff, append-nil, append_assoc,
}
use beam_mp_server.App.{text_eq}
use beam_mp_server.Base.Dict.{lookup, insert, lookup-insert}
use beam_mp_server.Base.Text.{Bytes}
use beam_mp_server.Lua.Values.{Entries, no_entries, Floating}
use beam_mp_server.Lua.Json.{
  JsonValue, json_null, json_bool, json_text, json_int, json_float, json_array, json_object,
  json_binary, Elements, no_elements, element, Members, no_members, member, table_size, has_key,
  json_decode, is_array, Pairs, elements_of, members_of, assign_all, collect, or_double, key_text,
  encode_value, encode_entries, json_encode,
}
use beam_mp_server.Lua.Json.Decoding.{
  has_name, IsRegular, AreRegular, HasRegular, listed, named, lua_of, new_name, decode_elements_lem,
  decode_members_lem,
}

module _ (fl : Floating) where
  abbrev pairs : ℕ → Elements → (ℕ → Bytes) → Pairs
  pairs i no_elements print_double = []
  pairs i (element j xs) print_double =
      (or_double fl print_double (fl.push_index i) (fl.as_int (fl.push_index i)), j)
      ∷ pairs (suc i) xs print_double

abbrev fields : Members → Pairs
fields no_members = []
fields (member k j ms) = (k, j) ∷ fields ms

elements_of-pairs :
    (fl : Floating) (print_double : ℕ → Bytes) (i : ℕ) (xs : Elements)
    → elements_of (pairs fl i xs print_double) ≡ xs
unfolding elements_of
elements_of-pairs fl print_double i no_elements = refl
elements_of-pairs fl print_double i (element j xs) =
    ap (element j) (elements_of-pairs fl print_double (suc i) xs)

members_of-fields : (ms : Members) → members_of (fields ms) ≡ ms
unfolding members_of
members_of-fields no_members = refl
members_of-fields (member k j ms) = ap (member k j) (members_of-fields ms)

insert-new :
    (k : Bytes) (j : JsonValue) (m : Pairs) → lookup k m ≡ none → insert k j m ≡ m ++ (k, j) ∷ []
unfolding lookup insert
insert-new k j [] h = refl
insert-new k j ((i, v) ∷ m) h = ground (arith, insert-new k j m)

AreNew : Pairs → Members → Type 0
AreNew m ms = (i : Bytes) → has_name i ms ≡ true → lookup i m ≡ none

still_unused :
    (k : Bytes) (j : JsonValue) (ms : Members) (m : Pairs)
    → has_name k ms ≡ false
    → AreNew m (member k j ms)
    → AreNew (insert k j m) ms
unfolding AreNew
still_unused k j ms m new g i h = ground (arith, g i, list_beq_iff k i, lookup-insert k i j m)

assign_all-fields :
    (fl : Floating) (d : ℕ) (ms : Members) (m : Pairs)
    → HasRegular fl d ms
    → AreNew m ms
    → assign_all m (fields ms) ≡ m ++ fields ms
unfolding IsRegular assign_all AreNew
assign_all-fields fl d no_members m h g = sym (append-nil m)
assign_all-fields fl d (member k j ms) m (deep, full, new, h, hs) g =
    assign_all-fields fl d ms (insert k j m) hs (still_unused k j ms m new g)
    ∙ ap (λ l. l ++ fields ms) (insert-new k j m (g k (new_name k j ms)))
    ∙ append_assoc m ((k, j) ∷ []) (fields ms)

is_array-listed : (fl : Floating) (i : ℕ) (xs : Elements) → is_array (listed fl i xs) ≡ true
unfolding is_array
is_array-listed fl i no_elements = refl
is_array-listed fl i (element j xs) = is_array-listed fl (suc i) xs

module _ (fl : Floating) (print_double : ℕ → Bytes) where
  collect-listed :
      (j : JsonValue) (xs : Elements) (ps : Pairs)
      → ps ≡ pairs fl 1 (element j xs) print_double
      → collect (is_array (listed fl 1 (element j xs))) ps ≡ json_array (element j xs)
  unfolding collect
  collect-listed j xs ps h =
      rw (is_array-listed fl 1 (element j xs), h)
        (ap json_array (elements_of-pairs fl print_double 1 (element j xs)))

  collect-named :
      (d : ℕ) (k : Bytes) (j : JsonValue) (ms : Members) (ps : Pairs)
      → HasRegular fl d (member k j ms)
      → ps ≡ fields (member k j ms)
      → collect (is_array (named fl (member k j ms))) ps ≡ json_object (member k j ms)
  unfolding collect is_array AreNew lookup
  collect-named d k j ms ps h g = rw g (
      ap json_object (
        ap members_of (assign_all-fields fl d (member k j ms) [] h (λ i e. refl))
        ∙ members_of-fields (member k j ms)))

  mutual
    unfolding encode_value IsRegular key_text

    encode_value_lem :
        (d : ℕ) (j : JsonValue)
        → IsRegular fl d j
        → encode_value fl print_double d (lua_of fl j) ≡ some j
    encode_value_lem d json_null h = absurd h
    encode_value_lem d (json_bool b) h = refl
    encode_value_lem d (json_text s) h = refl
    encode_value_lem d (json_int i) h = rw h refl
    encode_value_lem d (json_float x) h = rw h refl
    encode_value_lem d (json_array no_elements) h = absurd h
    encode_value_lem d (json_array (element j xs)) h = ap some (
        collect-listed j xs (encode_entries fl print_double (suc d) (listed fl 1 (element j xs)))
          (encode_entries-listed (suc d) 1 (element j xs) h))
    encode_value_lem d (json_object no_members) h = refl
    encode_value_lem d (json_object (member k j ms)) h = ap some (
        collect-named (suc d) k j ms
          (encode_entries fl print_double (suc d) (named fl (member k j ms))) h
          (encode_entries-named (suc d) (member k j ms) h))
    encode_value_lem d json_binary h = absurd h

    encode_entries-listed :
        (d i : ℕ) (xs : Elements)
        → AreRegular fl d xs
        → encode_entries fl print_double d (listed fl i xs) ≡ pairs fl i xs print_double
    encode_entries-listed d i no_elements h = refl
    encode_entries-listed d i (element j xs) (deep, h, hs) =
        rw (deep, encode_value_lem d j h, encode_entries-listed d (suc i) xs hs) refl

    encode_entries-named :
        (d : ℕ) (ms : Members)
        → HasRegular fl d ms
        → encode_entries fl print_double d (named fl ms) ≡ fields ms
    encode_entries-named d no_members h = refl
    encode_entries-named d (member k j ms) (deep, full, new, h, hs) =
        rw (deep, encode_value_lem d j h, encode_entries-named d ms hs) refl

-- What is at the top: an array with elements or an object, neither of them inside a table yet.
unfoldable pub IsTop : Floating → JsonValue → Type 0
IsTop fl (json_array no_elements) = ⊥
IsTop fl (json_array (element j xs)) = AreRegular fl 0 (element j xs)
IsTop fl (json_object ms) = HasRegular fl 0 ms
IsTop fl _ = ⊥

abbrev pub encoded : Floating → (ℕ → Bytes) → Option Entries → Option JsonValue
encoded fl print_double none = none
encoded fl print_double (some es) = some (json_encode fl print_double es)

-- An array or object that both sides can say, `IsTop` for the numbers of the Lua state, is decoded
-- into a table, and the encoding of that table is the document again.
pub json_encode-json_decode :
    (fl : Floating) (print_double : ℕ → Bytes) (j : JsonValue)
    → IsTop fl j
    → encoded fl print_double (json_decode fl j) ≡ some j
unfolding IsTop json_decode IsRegular json_encode table_size has_key
json_encode-json_decode fl print_double (json_array no_elements) h = absurd h
json_encode-json_decode fl print_double (json_array (element j xs)) h =
    ap (encoded fl print_double) (ap some (decode_elements_lem fl 0 (element j xs) no_entries h))
    ∙ ap some (
        collect-listed fl print_double j xs
          (encode_entries fl print_double 0 (listed fl 1 (element j xs)))
          (encode_entries-listed fl print_double 0 1 (element j xs) h))
json_encode-json_decode fl print_double (json_object no_members) h =
    ap (encoded fl print_double)
      (ap some (decode_members_lem fl 0 no_members no_entries h (λ i g. refl)))
json_encode-json_decode fl print_double (json_object (member k j ms)) h =
    ap (encoded fl print_double)
      (ap some (decode_members_lem fl 0 (member k j ms) no_entries h (λ i g. refl)))
    ∙ ap some (
        collect-named fl print_double 0 k j ms
          (encode_entries fl print_double 0 (named fl (member k j ms))) h
          (encode_entries-named fl print_double 0 (member k j ms) h))
json_encode-json_decode fl print_double json_null h = absurd h
json_encode-json_decode fl print_double (json_bool b) h = absurd h
json_encode-json_decode fl print_double (json_text b) h = absurd h
json_encode-json_decode fl print_double (json_int b) h = absurd h
json_encode-json_decode fl print_double (json_float b) h = absurd h
json_encode-json_decode fl print_double json_binary h = absurd h
