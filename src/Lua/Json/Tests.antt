-- ===== src/Lua/Json/Tests.antt =====
-- JSON for Lua at concrete inputs.
use beam_mp_server.Base.{
  ◌+◌, ◌*◌, ◌/◌, ◌%◌, ◌≡◌, refl, true, false, ℕ, [], none, some, ◌==◌, if◌then◌else◌,
}
use beam_mp_server.Base.Decimal.{to_string}
use beam_mp_server.Base.Dict.{insert}
use beam_mp_server.Base.Ints.{pos, negsuc}
use beam_mp_server.Base.Text.{Bytes, codes}
use beam_mp_server.Lua.Values.{text_key, number_key, text, boolean, no_entries, entry, Floating}
use beam_mp_server.World.{print_int}
use beam_mp_server.Lua.Json.{
  JsonValue, json_null, json_bool, json_text, json_int, json_float, json_array, json_object,
  no_elements, element, no_members, member, table_size, append_entry, has_key, set_key,
  append_value, add_to_table, decode_value, json_decode, is_array, elements_of, members_of,
  assign_all, collect, key_text, encode_value, json_encode,
}
use beam_mp_server.Lua.Json.Decoding.{IsRegular}
use beam_mp_server.Lua.Json.RoundTrip.{IsTop, encoded, json_encode-json_decode}

-- Numbers by their remainder: from 0 on, below 0, and not whole.
abbrev numbers : Floating
numbers = record {
  is_finite = λ d. true;
  at_least_one = λ d. true;
  truncate = λ d. d / 3;
  is_near = λ d n. true;
  as_int = λ d.
      if d % 3 == 0 then some (pos (d / 3)) else if d % 3 == 1 then some (negsuc (d / 3)) else none;
  push_int = λ z. elim z [ pos n ↦ 3 * n | negsuc n ↦ 3 * n + 1 ];
  push_index = λ i. 3 * i;
}

abbrev no_text : ℕ → Bytes
no_text n = []

open_json : Unit {0}
unfolding table_size append_entry has_key set_key append_value add_to_table decode_value json_decode
    is_array elements_of members_of assign_all collect key_text encode_value json_encode insert
open_json = tt

-- A name that is empty makes an element, which comes back as text for its index.
empty_name :
    encoded numbers no_text (
      json_decode numbers (
        json_object (member [] (json_bool true) (member (codes "a") (json_bool false) no_members))))
    ≡ some (
        json_object
          (member (codes "1") (json_bool true) (member (codes "a") (json_bool false) no_members)))
unfolding open_json to_string print_int
empty_name = refl

-- A null is passed over, and what follows it moves up.
null_in_array :
    json_decode numbers
      (json_array (element json_null (element (json_text (codes "b")) no_elements)))
    ≡ some (entry (number_key 3) (text (codes "b")) no_entries)
unfolding open_json
null_in_array = refl

empty_array :
    encoded numbers no_text (json_decode numbers (json_array no_elements))
    ≡ some (json_object no_members)
unfolding open_json
empty_array = refl

-- A table with an index and a name becomes an object.
mixed_table :
    json_encode numbers no_text (
      entry
        (number_key 3)
        (text (codes "x"))
        (entry (text_key (codes "k")) (boolean true) no_entries))
    ≡ json_object (
        member (codes "1") (json_text (codes "x")) (member (codes "k") (json_bool true) no_members))
unfolding open_json to_string print_int
mixed_table = refl

abbrev traffic : JsonValue
traffic = json_object (
    member (codes "cars")
      (json_array (element (json_int (negsuc 4)) (element (json_object no_members) no_elements)))
      (member (codes "fps") (json_float 5) no_members))

traffic-IsTop : IsTop numbers traffic
unfolding IsTop IsRegular
traffic-IsTop = (refl, refl, refl, (refl, refl, (refl, tt, tt)), (refl, refl, refl, refl, tt))

json_encode-json_decode_example :
    encoded numbers no_text (json_decode numbers traffic) ≡ some traffic
json_encode-json_decode_example = json_encode-json_decode numbers no_text traffic traffic-IsTop
