-- ===== src/Lua/Freeze/Bounds.antt =====
-- When `Freeze` throws.
use beam_mp_server.Base.{
  ℕ, suc, ◌+◌, ◌≤◌, max, ◌≡◌, refl, ◌∙◌, Bool, true, false, ◌&&◌, Option, none, some, arith, leb,
  if◌then◌else◌,
}
use beam_mp_server.Lua.Values.{
  LuaObject, lua_nil, boolean, number, text, table, opaque, Entries, no_entries, entry, Detached,
  Floating,
}
use beam_mp_server.Lua.Freeze.{
  Frozen, froze, failed, Scan, place, at_place, then_with, freeze, freeze_entries, build, new_scan,
  with_other,
}

abbrev pub is_placed {ℓ} : {A : Type ℓ} → Option A → Bool
is_placed none = false
is_placed (some a) = true

abbrev pub succeeds : {A : Type 0} → Frozen A → Bool
succeeds (froze a) = true
succeeds (failed e) = false

module _ (p : Floating) where
  -- How deep the tables of a value are nested, and whether it holds no function, userdata or thread;
  -- what stands under a key that is no text and no index does not count.
  unfoldable mutual
    pub height : LuaObject → ℕ
    height lua_nil = 0
    height (boolean b) = 0
    height (number d) = 0
    height (text s) = 0
    height (table es) = height_entries es
    height opaque = 0

    pub height_entries : Entries → ℕ
    height_entries no_entries = 0
    height_entries (entry k v es) =
        if is_placed (place p k)
        then max (suc (height v)) (height_entries es)
        else height_entries es

  unfoldable mutual
    pub is_plain : LuaObject → Bool
    is_plain lua_nil = true
    is_plain (boolean b) = true
    is_plain (number d) = true
    is_plain (text s) = true
    is_plain (table es) = are_plain es
    is_plain opaque = false

    pub are_plain : Entries → Bool
    are_plain no_entries = true
    are_plain (entry k v es) =
        if is_placed (place p k) then is_plain v && are_plain es else are_plain es

  then_with-succeeds :
      (f : Frozen Scan) → succeeds (then_with f (λ s. froze (build s))) ≡ succeeds f
  then_with-succeeds (froze s) = refl
  then_with-succeeds (failed e) = refl

  at_place-succeeds :
      (o : Option (Detached → Scan → Scan)) (v : Frozen Detached) (s : Scan)
      (go : Scan → Frozen Scan) (b : Bool)
      → ((s : Scan) → succeeds (go s) ≡ b)
      → succeeds (at_place p o v s go) ≡ (if is_placed o then succeeds v && b else b)
  at_place-succeeds none v s go b h = h (with_other s)
  at_place-succeeds (some put) (froze d) s go b h = h (put d s)
  at_place-succeeds (some put) (failed e) s go b h = refl

  mutual
    unfolding freeze freeze_entries height height_entries is_plain are_plain

    succeeds-freeze :
        (d : ℕ) (o : LuaObject) → succeeds (freeze p d o) ≡ (leb (d + height o) 64 && is_plain o)
    succeeds-freeze d lua_nil = ground arith
    succeeds-freeze d (boolean b) = ground arith
    succeeds-freeze d (number n) = ground arith
    succeeds-freeze d (text s) = ground arith
    succeeds-freeze d opaque = ground arith
    succeeds-freeze d (table es) = ground (
      arith,
      then_with-succeeds (freeze_entries p (d + 1) es new_scan),
      succeeds-freeze_entries d es new_scan,
    )

    succeeds-freeze_entries :
        (d : ℕ) (es : Entries) (s : Scan)
        → d ≤ 64
        → succeeds (freeze_entries p (d + 1) es s)
          ≡ (leb (d + height_entries es) 64 && are_plain es)
    succeeds-freeze_entries d no_entries s h = ground arith
    succeeds-freeze_entries d (entry k v es) s h =
        at_place-succeeds (place p k) (freeze p (d + 1) v) s (freeze_entries p (d + 1) es)
          (leb (d + height_entries es) 64 && are_plain es) (λ t. succeeds-freeze_entries d es t h)
        ∙ ground (arith, succeeds-freeze (d + 1) v)

-- A Lua value is copied exactly if its tables are nested no deeper than 64 and it holds no function,
-- userdata or thread, those under keys that are no text and no index left out.
pub freeze_iff :
    (p : Floating) (o : LuaObject) → succeeds (freeze p 0 o) ≡ (leb (height p o) 64 && is_plain p o)
freeze_iff p o = succeeds-freeze p 0 o ∙ ground arith
