-- ===== src/Lua/Values.antt =====
-- The values that cross between Lua states: Lua's own, as sol2 shows them, and the detached copies
-- of include/TLuaResult.h.
use beam_mp_server.Base.{ℕ, Bool, List, [], ◌∷◌, Option}
use beam_mp_server.Base.Ints.{ℤ}
use beam_mp_server.Base.Text.{Bytes}

-- A key of a Lua table. A `double` is the 64 bits of it.
pub data Key : Type 0 where
  text_key : Bytes → Key
  number_key : ℕ → Key
  other_key : Key

-- A Lua value. A table is its entries in the order in which a pass over it meets them; `opaque` is
-- a function, a userdata or a thread.
mutual
  pub data LuaObject : Type 0 where
    lua_nil : LuaObject
    boolean : Bool → LuaObject
    number : ℕ → LuaObject
    text : Bytes → LuaObject
    table : Entries → LuaObject
    opaque : LuaObject

  pub data Entries : Type 0 where
    no_entries : Entries
    entry : Key → LuaObject → Entries → Entries

-- `TDetachedLuaValue`.
mutual
  pub data Detached : Type 0 where
    monostate : Detached
    bool_of : Bool → Detached
    double_of : ℕ → Detached
    int_of : ℤ → Detached
    string_of : Bytes → Detached
    array_of : Items → Detached
    object_of : Fields → Detached

  pub data Items : Type 0 where
    no_items : Items
    item : Detached → Items → Items

  pub data Fields : Type 0 where
    no_fields : Fields
    field : Bytes → Detached → Fields → Fields

abbrev pub items : List Detached → Items
items [] = no_items
items (v ∷ vs) = item v (items vs)

-- The processor's `double`, and sol2's reading of a number: `as_int` is `as<int>` where `is<int>`
-- holds, and `push_int` and `push_index` are the numbers that an `int` and a `size_t` become.
pub record Floating : Type 0 where
  pub is_finite : ℕ → Bool
  pub at_least_one : ℕ → Bool
  pub truncate : ℕ → ℕ
  pub is_near : ℕ → ℕ → Bool
  pub as_int : ℕ → Option ℤ
  pub push_int : ℤ → ℕ
  pub push_index : ℕ → ℕ
