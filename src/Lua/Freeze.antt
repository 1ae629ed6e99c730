-- ===== src/Lua/Freeze.antt =====
-- src/TLuaResult.cpp: `Freeze`, which copies a Lua value out of its state, and the way back in
-- `GetResults` of src/TLuaEngine.cpp.
pub mod Bounds
pub mod Scans
pub mod RoundTrip
use beam_mp_server.Base.{
  ℕ, zero, suc, ◌+◌, ◌-◌, max, Bool, true, false, not, ◌&&◌, ◌||◌, List, [], ◌∷◌, ◌++◌, Option,
  none, some, ltb, leb, ◌==◌, if◌then◌else◌, length, is_empty, list_beq,
}
use beam_mp_server.Base.Text.{Bytes, codes}
use beam_mp_server.Base.Ints.{ℤ}
use beam_mp_server.Lua.Values.{
  Key, text_key, number_key, other_key, LuaObject, lua_nil, boolean, number, text, table, opaque,
  Entries, no_entries, entry, Detached, monostate, bool_of, double_of, int_of, string_of, array_of,
  object_of, Items, no_items, item, Fields, no_fields, field, items, Floating,
}

-- A result, or the exception with its text.
pub data Frozen (A : Type 0) : Type 0 where
  froze : A → Frozen A
  failed : Bytes → Frozen A

abbrev pub too_deep : Bytes
too_deep = codes "max depth (64) reached"

abbrev pub unsupported : Bytes
unsupported = codes "unsupported Lua type for cross-thread snapshot"

-- `contains` and `emplace` of the map: an entry that is there already stays.
unfoldable pub has_field : Bytes → Fields → Bool
has_field k no_fields = false
has_field k (field j v fs) = list_beq j k || has_field k fs

unfoldable pub push_field : Bytes → Detached → Fields → Fields
push_field k v no_fields = field k v no_fields
push_field k v (field j w fs) = field j w (push_field k v fs)

abbrev pub emplace_field : Bytes → Detached → Fields → Fields
emplace_field k v fs = if has_field k fs then fs else push_field k v fs

-- The variables that the loop over a table keeps.
pub record Scan : Type 0 where
  pub object_out : Fields
  pub numeric_entries : List (ℕ × Detached)
  pub has_other_key : Bool
  pub max_index : ℕ

abbrev pub new_scan : Scan
new_scan = record {
  object_out = no_fields;
  numeric_entries = [];
  has_other_key = false;
  max_index = 0;
}

unfoldable pub with_text : Bytes → Detached → Scan → Scan
with_text k v s = record s { object_out = emplace_field k v s.object_out }

unfoldable pub with_index : ℕ → Detached → Scan → Scan
with_index n v s = record s {
  numeric_entries = s.numeric_entries ++ (n, v) ∷ [];
  max_index = max s.max_index n;
}

unfoldable pub with_other : Scan → Scan
with_other s = record s { has_other_key = true }

unfoldable pub blank : ℕ → List Detached
blank zero = []
blank (suc n) = monostate ∷ blank n

-- `ArrayOut[i] = v` where `i` is in range.
unfoldable pub set_item : ℕ → Detached → List Detached → List Detached
set_item i v [] = []
set_item zero v (w ∷ ws) = v ∷ ws
set_item (suc i) v (w ∷ ws) = w ∷ set_item i v ws

unfoldable pub fill : List (ℕ × Detached) → List Detached → List Detached
fill [] out = out
fill ((n, v) ∷ es) out =
    fill es (if ltb 0 n && leb n (length out) then set_item (n - 1) v out else out)

abbrev pub is_no_fields : Fields → Bool
is_no_fields no_fields = true
is_no_fields (field k v fs) = false

-- What becomes of a table once all its entries are read.
unfoldable pub build : Scan → Detached
build s =
    if not (is_empty s.numeric_entries) && is_no_fields s.object_out && not s.has_other_key
    then array_of (items (fill s.numeric_entries (blank s.max_index)))
    else object_of s.object_out

abbrev pub then_with : {A B : Type 0} → Frozen A → (A → Frozen B) → Frozen B
then_with (froze a) f = f a
then_with (failed e) f = failed e

abbrev pub int_or_double : ℕ → Option ℤ → Detached
int_or_double d none = double_of d
int_or_double d (some z) = int_of z

module _ (p : Floating) where
  -- `IsPositiveInteger` of a numeric key.
  unfoldable pub is_index : ℕ → Bool
  is_index d = p.is_finite d && p.at_least_one d && p.is_near d (p.truncate d)

  -- What the loop does with a key: nothing is frozen under a key that is no text and no index.
  unfoldable pub place : Key → Option (Detached → Scan → Scan)
  place (text_key k) = some (with_text k)
  place (number_key d) = if is_index d then some (with_index (p.truncate d)) else none
  place other_key = none

  abbrev pub at_place :
      Option (Detached → Scan → Scan) → Frozen Detached → Scan → (Scan → Frozen Scan) → Frozen Scan
  at_place none v s go = go (with_other s)
  at_place (some put) v s go = then_with v (λ d. go (put d s))

  unfoldable mutual
    pub freeze : ℕ → LuaObject → Frozen Detached
    freeze depth lua_nil = if ltb 64 depth then failed too_deep else froze monostate
    freeze depth (boolean b) = if ltb 64 depth then failed too_deep else froze (bool_of b)
    freeze depth (number d) =
        if ltb 64 depth then failed too_deep else froze (int_or_double d (p.as_int d))
    freeze depth (text s) = if ltb 64 depth then failed too_deep else froze (string_of s)
    freeze depth (table es) =
        let scan = freeze_entries (depth + 1) es new_scan in
        if ltb 64 depth then failed too_deep else then_with scan (λ s. froze (build s))
    freeze depth opaque = if ltb 64 depth then failed too_deep else failed unsupported

    pub freeze_entries : ℕ → Entries → Scan → Frozen Scan
    freeze_entries depth no_entries s = froze s
    freeze_entries depth (entry k v es) s =
        at_place (place k) (freeze depth v) s (freeze_entries depth es)

  -- `Table.set` with a key that the table does not have yet: no entry for nil.
  abbrev pub set_entry : Key → LuaObject → Entries → Entries
  set_entry k lua_nil es = es
  set_entry k v es = entry k v es

  unfoldable mutual
    pub to_lua : Detached → LuaObject
    to_lua monostate = lua_nil
    to_lua (bool_of b) = boolean b
    to_lua (double_of d) = number d
    to_lua (int_of z) = number (p.push_int z)
    to_lua (string_of s) = text s
    to_lua (array_of vs) = table (item_entries 1 vs)
    to_lua (object_of fs) = table (field_entries fs)

    pub item_entries : ℕ → Items → Entries
    item_entries i no_items = no_entries
    item_entries i (item v vs) =
        set_entry (number_key (p.push_index i)) (to_lua v) (item_entries (suc i) vs)

    pub field_entries : Fields → Entries
    field_entries no_fields = no_entries
    field_entries (field k v fs) = set_entry (text_key k) (to_lua v) (field_entries fs)
