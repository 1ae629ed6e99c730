-- ===== src/Lua/Json/Decoding.antt =====
-- What decoding makes of a document: the table that `lua_of` says, all at once.
use beam_mp_server.Base.{
  ℕ, suc, ◌≡◌, refl, sym, ap, ◌∙◌, Bool, true, false, ◌||◌, [], none, some, arith, ltb, is_empty,
  list_beq, list_beq_iff,
}
use beam_mp_server.App.{text_eq}
use beam_mp_server.Base.Text.{Bytes}
use beam_mp_server.Lua.Values.{
  Key, text_key, number_key, other_key, LuaObject, lua_nil, boolean, number, text, table, opaque,
  Entries, no_entries, entry, Floating,
}
use beam_mp_server.Lua.Json.{
  JsonValue, json_null, json_bool, json_text, json_int, json_float, json_array, json_object,
  json_binary, Elements, no_elements, element, Members, no_members, member, table_size,
  append_entry, has_key, set_key, append_value, add_to_table, decode_value, decode_elements,
  decode_members,
}

abbrev pub has_name : Bytes → Members → Bool
has_name k no_members = false
has_name k (member j v ms) = list_beq j k || has_name k ms

module _ (fl : Floating) where
  -- What both sides can say, at a depth of nested tables: no null and nothing binary, no array
  -- without elements, names that are not empty and stand once, whole numbers that Lua gives back
  -- and other numbers that it does not take for one, and at most 100 tables around a value.
  unfoldable mutual
    pub IsRegular : ℕ → JsonValue → Type 0
    IsRegular d json_null = ⊥
    IsRegular d (json_bool b) = Unit
    IsRegular d (json_text s) = Unit
    IsRegular d (json_int i) = fl.as_int (fl.push_int i) ≡ some i
    IsRegular d (json_float x) = fl.as_int x ≡ none
    IsRegular d (json_array no_elements) = ⊥
    IsRegular d (json_array (element j xs)) = AreRegular (suc d) (element j xs)
    IsRegular d (json_object ms) = HasRegular (suc d) ms
    IsRegular d json_binary = ⊥

    pub AreRegular : ℕ → Elements → Type 0
    AreRegular d no_elements = Unit
    AreRegular d (element j xs) = (ltb 100 d ≡ false) × IsRegular d j × AreRegular d xs

    pub HasRegular : ℕ → Members → Type 0
    HasRegular d no_members = Unit
    HasRegular d (member k j ms) =
        (ltb 100 d ≡ false)
        × (is_empty k ≡ false)
        × (has_name k ms ≡ false)
        × IsRegular d j
        × HasRegular d ms

  -- The value for a document, all at once.
  abbrev mutual
    pub lua_of : JsonValue → LuaObject
    lua_of json_null = lua_nil
    lua_of (json_bool b) = boolean b
    lua_of (json_text s) = text s
    lua_of (json_int i) = number (fl.push_int i)
    lua_of (json_float x) = number x
    lua_of (json_array xs) = table (listed 1 xs)
    lua_of (json_object ms) = table (named ms)
    lua_of json_binary = opaque

    pub listed : ℕ → Elements → Entries
    listed i no_elements = no_entries
    listed i (element j xs) = entry (number_key (fl.push_index i)) (lua_of j) (listed (suc i) xs)

    pub named : Members → Entries
    named no_members = no_entries
    named (member k j ms) = entry (text_key k) (lua_of j) (named ms)

abbrev join : Entries → Entries → Entries
join no_entries fs = fs
join (entry k v es) fs = entry k v (join es fs)

join_none : (es : Entries) → join es no_entries ≡ es
join_none no_entries = refl
join_none (entry k v es) = ap (entry k v) (join_none es)

join-append_entry :
    (k : Key) (v : LuaObject) (es fs : Entries)
    → join (append_entry k v es) fs ≡ join es (entry k v fs)
unfolding append_entry
join-append_entry k v no_entries fs = refl
join-append_entry k v (entry j w es) fs = ap (entry j w) (join-append_entry k v es fs)

table_size-append_entry :
    (n : ℕ) (v : LuaObject) (es : Entries)
    → table_size (append_entry (number_key n) v es) ≡ suc (table_size es)
unfolding append_entry table_size
table_size-append_entry n v no_entries = refl
table_size-append_entry n v (entry (text_key k) w es) = table_size-append_entry n v es
table_size-append_entry n v (entry (number_key m) w es) = ap suc (table_size-append_entry n v es)
table_size-append_entry n v (entry other_key w es) = table_size-append_entry n v es

has_key-append_entry :
    (j k : Bytes) (v : LuaObject) (es : Entries)
    → has_key j (append_entry (text_key k) v es) ≡ (has_key j es || list_beq k j)
unfolding append_entry has_key
has_key-append_entry j k v no_entries = ground arith
has_key-append_entry j k v (entry i w es) = ground (arith, has_key-append_entry j k v es)

abbrev is_nil : LuaObject → Bool
is_nil lua_nil = true
is_nil _ = false

add_to_table-element :
    (fl : Floating) (v : LuaObject) (es : Entries)
    → is_nil v ≡ false
    → add_to_table fl [] v es ≡ append_entry (number_key (fl.push_index (suc (table_size es)))) v es
unfolding add_to_table append_value
add_to_table-element fl lua_nil es h = absurd (ground arith)
add_to_table-element fl (boolean b) es h = refl
add_to_table-element fl (number n) es h = refl
add_to_table-element fl (text s) es h = refl
add_to_table-element fl (table t) es h = refl
add_to_table-element fl opaque es h = refl

set_key-new :
    (k : Bytes) (v : LuaObject) (es : Entries)
    → is_nil v ≡ false
    → has_key k es ≡ false
    → set_key k v es ≡ append_entry (text_key k) v es
unfolding set_key
set_key-new k lua_nil es h g = absurd (ground arith)
set_key-new k (boolean b) es h g = rw g refl
set_key-new k (number n) es h g = rw g refl
set_key-new k (text s) es h g = rw g refl
set_key-new k (table t) es h g = rw g refl
set_key-new k opaque es h g = rw g refl

add_to_table-member :
    (fl : Floating) (k : Bytes) (v : LuaObject) (es : Entries)
    → is_empty k ≡ false
    → is_nil v ≡ false
    → has_key k es ≡ false
    → add_to_table fl k v es ≡ append_entry (text_key k) v es
unfolding add_to_table
add_to_table-member fl k v es e h g = rw e (set_key-new k v es h g)

lua_of-value :
    (fl : Floating) (d : ℕ) (j : JsonValue) → IsRegular fl d j → is_nil (lua_of fl j) ≡ false
unfolding IsRegular
lua_of-value fl d json_null h = absurd h
lua_of-value fl d (json_bool b) h = refl
lua_of-value fl d (json_text b) h = refl
lua_of-value fl d (json_int b) h = refl
lua_of-value fl d (json_float b) h = refl
lua_of-value fl d (json_array b) h = refl
lua_of-value fl d (json_object b) h = refl
lua_of-value fl d json_binary h = absurd h

still_new :
    (k : Bytes) (j : JsonValue) (ms : Members) (v : LuaObject) (es : Entries)
    → has_name k ms ≡ false
    → ((i : Bytes) → has_name i (member k j ms) ≡ true → has_key i es ≡ false)
    → (i : Bytes) → has_name i ms ≡ true
    → has_key i (append_entry (text_key k) v es) ≡ false
still_new k j ms v es new g i h =
    ground (arith, g i, list_beq_iff k i, has_key-append_entry i k v es)

pub new_name : (k : Bytes) (j : JsonValue) (ms : Members) → has_name k (member k j ms) ≡ true
new_name k j ms = ground (arith, list_beq_iff k k)

module _ (fl : Floating) where
  mutual
    unfolding decode_value IsRegular table_size has_key

    decode_value_lem :
        (d : ℕ) (j : JsonValue) → IsRegular fl d j → decode_value fl j ≡ some (lua_of fl j)
    decode_value_lem d json_null h = absurd h
    decode_value_lem d (json_bool b) h = refl
    decode_value_lem d (json_text s) h = refl
    decode_value_lem d (json_int i) h = refl
    decode_value_lem d (json_float x) h = refl
    decode_value_lem d (json_array no_elements) h = absurd h
    decode_value_lem d (json_array (element j xs)) h =
        ap (λ t. some (table t)) (decode_elements_lem (suc d) (element j xs) no_entries h)
    decode_value_lem d (json_object ms) h =
        ap (λ t. some (table t)) (decode_members_lem (suc d) ms no_entries h (λ i g. refl))
    decode_value_lem d json_binary h = absurd h

    pub decode_elements_lem :
        (d : ℕ) (xs : Elements) (es : Entries)
        → AreRegular fl d xs
        → decode_elements fl xs es ≡ join es (listed fl (suc (table_size es)) xs)
    decode_elements_lem d no_elements es h = sym (join_none es)
    decode_elements_lem d (element j xs) es (deep, h, hs) =
        let k = number_key (fl.push_index (suc (table_size es))) in
        let v = lua_of fl j in
        rw (decode_value_lem d j h, add_to_table-element fl v es (lua_of-value fl d j h))
          (decode_elements_lem d xs (append_entry k v es) hs
            ∙ ap (λ n. join (append_entry k v es) (listed fl (suc n) xs))
                (table_size-append_entry (fl.push_index (suc (table_size es))) v es)
            ∙ join-append_entry k v es (listed fl (suc (suc (table_size es))) xs))

    pub decode_members_lem :
        (d : ℕ) (ms : Members) (es : Entries)
        → HasRegular fl d ms
        → ((i : Bytes) → has_name i ms ≡ true → has_key i es ≡ false)
        → decode_members fl ms es ≡ join es (named fl ms)
    decode_members_lem d no_members es h g = sym (join_none es)
    decode_members_lem d (member k j ms) es (deep, full, new, h, hs) g =
        let v = lua_of fl j in
        rw
          (
            decode_value_lem d j h,
            add_to_table-member fl k v es full (lua_of-value fl d j h) (g k (new_name k j ms)),
          )
          (decode_members_lem d ms (append_entry (text_key k) v es) hs (still_new k j ms v es new g)
            ∙ join-append_entry (text_key k) v es (named fl ms))
