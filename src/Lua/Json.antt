-- ===== src/Lua/Json.antt =====
-- JSON for Lua: `JsonDecodeRecursive` and `Lua_JsonDecode` of src/TLuaEngine.cpp, and
-- `JsonEncodeRecursive` and `JsonEncode` of src/LuaAPI.cpp, on the documents of nlohmann::json. What
-- stands in a table is met in the order in which it was put there; as the members of a document
-- have no order, this is of no account for an object.
pub mod Decoding
pub mod RoundTrip
mod Tests
use beam_mp_server.Base.{
  ℕ, zero, suc, ◌+◌, Bool, true, false, not, ◌&&◌, ◌||◌, List, [], ◌∷◌, ◌++◌, Option, none, some,
  ltb, ◌==◌, if◌then◌else◌, is_empty, list_beq,
}
use beam_mp_server.App.{text_eq}
use beam_mp_server.Base.Dict.{insert}
use beam_mp_server.Base.Ints.{ℤ}
use beam_mp_server.Base.Text.{Bytes}
use beam_mp_server.Lua.Values.{
  Key, text_key, number_key, other_key, LuaObject, lua_nil, boolean, number, text, table, opaque,
  Entries, no_entries, entry, Floating,
}
use beam_mp_server.World.{print_int}

-- A document. Whether a number was written with a sign is of no account.
mutual
  pub data JsonValue : Type 0 where
    json_null : JsonValue
    json_bool : Bool → JsonValue
    json_text : Bytes → JsonValue
    json_int : ℤ → JsonValue
    json_float : ℕ → JsonValue
    json_array : Elements → JsonValue
    json_object : Members → JsonValue
    json_binary : JsonValue

  pub data Elements : Type 0 where
    no_elements : Elements
    element : JsonValue → Elements → Elements

  pub data Members : Type 0 where
    no_members : Members
    member : Bytes → JsonValue → Members → Members

-- `table.size()`: a number is only ever put behind the last one.
unfoldable pub table_size : Entries → ℕ
table_size no_entries = 0
table_size (entry (text_key k) v es) = table_size es
table_size (entry (number_key n) v es) = suc (table_size es)
table_size (entry other_key v es) = table_size es

unfoldable pub append_entry : Key → LuaObject → Entries → Entries
append_entry k v no_entries = entry k v no_entries
append_entry k v (entry j w es) = entry j w (append_entry k v es)

abbrev pub is_text : Bytes → Key → Bool
is_text k (text_key j) = list_beq j k
is_text k (number_key n) = false
is_text k other_key = false

unfoldable pub has_key : Bytes → Entries → Bool
has_key k no_entries = false
has_key k (entry j v es) = is_text k j || has_key k es

unfoldable pub without_key : Bytes → Entries → Entries
without_key k no_entries = no_entries
without_key k (entry j v es) =
    let rest = without_key k es in if is_text k j then rest else entry j v rest

unfoldable pub replace_key : Bytes → LuaObject → Entries → Entries
replace_key k v no_entries = no_entries
replace_key k v (entry j w es) =
    let rest = replace_key k v es in if is_text k j then entry j v es else entry j w rest

-- An assignment to the field of a name; nil removes it.
unfoldable pub set_key : Bytes → LuaObject → Entries → Entries
set_key k lua_nil es = without_key k es
set_key k v es = if has_key k es then replace_key k v es else append_entry (text_key k) v es

module _ (fl : Floating) where
  -- Nil behind the last one changes nothing.
  unfoldable pub append_value : LuaObject → Entries → Entries
  append_value lua_nil es = es
  append_value v es = append_entry (number_key (fl.push_index (suc (table_size es)))) v es

  unfoldable pub add_to_table : Bytes → LuaObject → Entries → Entries
  add_to_table left v es = if is_empty left then append_value v es else set_key left v es

  abbrev pub add_decoded : Bytes → Option LuaObject → Entries → Entries
  add_decoded left none es = es
  add_decoded left (some v) es = add_to_table left v es

  -- The value that is added; `none` for what is ignored.
  unfoldable mutual
    pub decode_value : JsonValue → Option LuaObject
    decode_value json_null = some lua_nil
    decode_value (json_bool b) = some (boolean b)
    decode_value (json_text s) = some (text s)
    decode_value (json_int i) = some (number (fl.push_int i))
    decode_value (json_float x) = some (number x)
    decode_value (json_array xs) = some (table (decode_elements xs no_entries))
    decode_value (json_object ms) = some (table (decode_members ms no_entries))
    decode_value json_binary = none

    pub decode_elements : Elements → Entries → Entries
    decode_elements no_elements es = es
    decode_elements (element j xs) es = decode_elements xs (add_decoded [] (decode_value j) es)

    pub decode_members : Members → Entries → Entries
    decode_members no_members es = es
    decode_members (member k j ms) es = decode_members ms (add_decoded k (decode_value j) es)

  -- `Lua_JsonDecode`; `none` is nil.
  unfoldable pub json_decode : JsonValue → Option Entries
  json_decode (json_array xs) = some (decode_elements xs no_entries)
  json_decode (json_object ms) = some (decode_members ms no_entries)
  json_decode j = none

abbrev pub is_number_key : Key → Bool
is_number_key (text_key k) = false
is_number_key (number_key n) = true
is_number_key other_key = false

unfoldable pub is_array : Entries → Bool
is_array no_entries = true
is_array (entry k v es) = is_number_key k && is_array es

abbrev pub Pairs : Type 0
Pairs = List (Bytes × JsonValue)

unfoldable pub elements_of : Pairs → Elements
elements_of [] = no_elements
elements_of ((k, j) ∷ ps) = element j (elements_of ps)

unfoldable pub members_of : Pairs → Members
members_of [] = no_members
members_of ((k, j) ∷ ps) = member k j (members_of ps)

-- `json[key] = value` for each of the pairs.
unfoldable pub assign_all : Pairs → Pairs → Pairs
assign_all m [] = m
assign_all m ((k, j) ∷ ps) = assign_all (insert k j m) ps

-- The document that the pairs make of a null one.
unfoldable pub collect : Bool → Pairs → JsonValue
collect array [] = json_null
collect true (p ∷ ps) = json_array (elements_of (p ∷ ps))
collect false (p ∷ ps) = json_object (members_of (assign_all [] (p ∷ ps)))

abbrev pub cons_pair : Option Bytes → Option JsonValue → Pairs → Pairs
cons_pair (some k) (some j) ps = (k, j) ∷ ps
cons_pair k j ps = ps

-- `print_double` is `std::to_string` of a `double`.
module _ (fl : Floating) (print_double : ℕ → Bytes) where
  abbrev pub or_double : ℕ → Option ℤ → Bytes
  or_double n none = print_double n
  or_double n (some i) = print_int i

  unfoldable pub key_text : Key → Option Bytes
  key_text (text_key k) = some k
  key_text (number_key n) = some (or_double n (fl.as_int n))
  key_text other_key = none

  abbrev pub number_document : ℕ → Option ℤ → JsonValue
  number_document n none = json_float n
  number_document n (some i) = json_int i

  -- What an entry becomes, at a depth of nested tables; deeper than 100 it is left out.
  unfoldable mutual
    pub encode_value : ℕ → LuaObject → Option JsonValue
    encode_value depth lua_nil = none
    encode_value depth (boolean b) = some (json_bool b)
    encode_value depth (number n) = some (number_document n (fl.as_int n))
    encode_value depth (text s) = some (json_text s)
    encode_value depth (table no_entries) = some (json_object no_members)
    encode_value depth (table (entry k v es)) =
        some (collect (is_array (entry k v es)) (encode_entries (suc depth) (entry k v es)))
    encode_value depth opaque = none

    pub encode_entries : ℕ → Entries → Pairs
    encode_entries depth no_entries = []
    encode_entries depth (entry k v es) =
        let rest = encode_entries depth es in
        if ltb 100 depth then rest else cons_pair (key_text k) (encode_value depth v) rest

  -- `JsonEncode`.
  unfoldable pub json_encode : Entries → JsonValue
  json_encode no_entries = json_object no_members
  json_encode (entry k v es) = collect (is_array (entry k v es)) (encode_entries 0 (entry k v es))
