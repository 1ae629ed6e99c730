-- ===== src/Lua/Freeze/RoundTrip.antt =====
-- A detached value that is handed to a Lua state and copied out again.
use beam_mp_server.Base.{
  ℕ, suc, ◌+◌, ◌≤◌, ◌<◌, ◌^◌, max, ◌≡◌, refl, ap, ◌∙◌, true, false, [], ◌∷◌, some, arith, length,
  append-nil, append_assoc, list_beq_iff, inl, inr, Bool-cases,
}
use beam_mp_server.Base.Text.{Bytes}
use beam_mp_server.Lua.Values.{
  Key, text_key, number_key, LuaObject, Entries, entry, Detached, monostate, bool_of, double_of,
  int_of, string_of, array_of, object_of, Items, no_items, item, Fields, no_fields, field, Floating,
}
use beam_mp_server.Lua.Freeze.{
  Frozen, froze, has_field, Scan, new_scan, with_text, with_index, build, then_with, place, freeze,
  freeze_entries, to_lua, item_entries, field_entries,
}
use beam_mp_server.Lua.Freeze.Scans.{
  is_nothing, to_list, Exact, IsFrozen, AreFrozen, HasFrozen, join, join-push_field,
  has_field-push_field, numbered, last_index, with_items, with_fields, set_entry-value,
  set_entry-nothing, build-array, build-object,
}

max_assoc : (a b c : ℕ) → max (max a b) c ≡ max a (max b c)
max_assoc a b c = omega arith

max_zero : (n : ℕ) → max n 0 ≡ n
max_zero n = omega arith

with_items_none : (i : ℕ) (s : Scan) → s ≡ with_items i no_items s
with_items_none i s = rw (append-nil s.numeric_entries, max_zero s.max_index) refl

join_none : (fs : Fields) → join fs no_fields ≡ fs
join_none no_fields = refl
join_none (field k v fs) = ap (field k v) (join_none fs)

module _ (p : Floating) (exact : Exact p) where
  then_build :
      (f : Frozen Scan) (s : Scan) (v : Detached)
      → f ≡ froze s
      → build s ≡ v
      → then_with f (λ s. froze (build s)) ≡ froze v
  then_build f s v h k = rw (h, k) refl

  freeze_entries-entry :
      (d : ℕ) (k : Key) (o : LuaObject) (v : Detached) (es : Entries) (s : Scan)
      (put : Detached → Scan → Scan)
      → place p k ≡ some put
      → freeze p d o ≡ froze v
      → freeze_entries p d (entry k o es) s ≡ freeze_entries p d es (put v s)
  unfolding freeze_entries
  freeze_entries-entry d k o v es s put h g = rw (h, g, freeze_entries) refl

  place-index :
      (i : ℕ) → 1 ≤ i → i < 2 ^ 53 → place p (number_key (p.push_index i)) ≡ some (with_index i)
  unfolding place
  place-index i h k = let (a, b) = exact.indices i h k in rw (a, b) refl

  place-text : (k : Bytes) → place p (text_key k) ≡ some (with_text k)
  unfolding place
  place-text k = refl

  with_items-nothing :
      (i : ℕ) (v : Detached) (vs : Items) (s : Scan)
      → is_nothing v ≡ true
      → with_items (suc i) vs s ≡ with_items i (item v vs) s
  with_items-nothing i v vs s h = rw h refl

  has_field-first : (k : Bytes) (v : Detached) (fs : Fields) → has_field k (field k v fs) ≡ true
  unfolding has_field
  has_field-first k v fs = ground (arith, list_beq_iff k k)

  still_fresh :
      (k : Bytes) (v : Detached) (fs : Fields) (s : Scan)
      → has_field k fs ≡ false
      → ((j : Bytes) → has_field j (field k v fs) ≡ true → has_field j s.object_out ≡ false)
      → (j : Bytes) → has_field j fs ≡ true
      → has_field j (with_text k v s).object_out ≡ false
  unfolding has_field with_text
  still_fresh k v fs s fresh g j h =
      ground (
        arith,
        g j,
        g k,
        list_beq_iff k j,
        list_beq_iff k k,
        has_field-push_field j k v s.object_out,
      )

  with_items-item :
      (i : ℕ) (v : Detached) (vs : Items) (s : Scan)
      → is_nothing v ≡ false
      → with_items (suc i) vs (with_index i v s) ≡ with_items i (item v vs) s
  unfolding with_index
  with_items-item i v vs s h =
      rw
        (
          h,
          append_assoc s.numeric_entries ((i, v) ∷ []) (numbered (suc i) vs),
          max_assoc s.max_index i (last_index (suc i) vs),
        )
        refl

  with_fields-field :
      (k : Bytes) (v : Detached) (fs : Fields) (s : Scan)
      → has_field k s.object_out ≡ false
      → with_fields fs (with_text k v s) ≡ with_fields (field k v fs) s
  unfolding with_text
  with_fields-field k v fs s h = rw (h, join-push_field k v s.object_out fs) refl

  mutual
    unfolding freeze to_lua IsFrozen has_field

    freeze-to_lua :
        (d : ℕ) (v : Detached) → d ≤ 64 → IsFrozen p d v → freeze p d (to_lua p v) ≡ froze v
    freeze-to_lua d monostate b h = ground arith
    freeze-to_lua d (bool_of x) b h = ground arith
    freeze-to_lua d (double_of n) b h = ground (arith, h)
    freeze-to_lua d (int_of z) b h = ground (arith, exact.ints z)
    freeze-to_lua d (string_of s) b h = ground arith
    freeze-to_lua d (array_of vs) b (deep, last, short, all) = ground (
      arith,
      then_build (freeze_entries p (d + 1) (item_entries p 1 vs) new_scan)
          (with_items 1 vs new_scan) (array_of vs)
          (freeze-item_entries (d + 1) 1 vs new_scan (omega arith) (omega arith) (omega arith) all)
          (build-array vs last),
    )
    freeze-to_lua d (object_of fs) b (deep, all) = ground (
      arith,
      then_build (freeze_entries p (d + 1) (field_entries p fs) new_scan) (with_fields fs new_scan)
          (object_of fs) (freeze-field_entries (d + 1) fs new_scan (omega arith) all (λ k _. refl))
          (build-object fs),
    )

    freeze-item_entries :
        (d i : ℕ) (vs : Items) (s : Scan)
        → d ≤ 64
        → 1 ≤ i
        → i + length (to_list vs) ≤ 2 ^ 53
        → AreFrozen p d vs
        → freeze_entries p d (item_entries p i vs) s ≡ froze (with_items i vs s)
    freeze-item_entries d i no_items s b l u h = ap froze (with_items_none i s)
    freeze-item_entries d i (item v vs) s b l u (h, hs) = elim (Bool-cases (is_nothing v)) [
      | inl n ↦
          ap (λ es. freeze_entries p d es s)
            (set_entry-nothing p (number_key (p.push_index i)) v (item_entries p (suc i) vs) n)
          ∙ freeze-item_entries d (suc i) vs s b (omega arith) (omega arith) hs
          ∙ ap froze (with_items-nothing i v vs s n)
      | inr n ↦
          ap (λ es. freeze_entries p d es s)
            (set_entry-value p (number_key (p.push_index i)) v (item_entries p (suc i) vs) n)
          ∙ freeze_entries-entry d (number_key (p.push_index i)) (to_lua p v) v
              (item_entries p (suc i) vs) s (with_index i) (place-index i l (omega arith))
              (freeze-to_lua d v b h)
          ∙ freeze-item_entries d (suc i) vs (with_index i v s) b (omega arith) (omega arith) hs
          ∙ ap froze (with_items-item i v vs s n)
    ]

    freeze-field_entries :
        (d : ℕ) (fs : Fields) (s : Scan)
        → d ≤ 64
        → HasFrozen p d fs
        → ((k : Bytes) → has_field k fs ≡ true → has_field k s.object_out ≡ false)
        → freeze_entries p d (field_entries p fs) s ≡ froze (with_fields fs s)
    freeze-field_entries d no_fields s b h g = rw (join_none s.object_out) refl
    freeze-field_entries d (field k v fs) s b (h, value, fresh, hs) g =
        ap (λ es. freeze_entries p d es s)
          (set_entry-value p (text_key k) v (field_entries p fs) value)
        ∙ freeze_entries-entry d (text_key k) (to_lua p v) v (field_entries p fs) s (with_text k)
            (place-text k) (freeze-to_lua d v b h)
        ∙ freeze-field_entries d fs (with_text k v s) b hs (still_fresh k v fs s fresh g)
        ∙ ap froze (with_fields-field k v fs s (g k (has_field-first k v fs)))

-- With numbers that keep their promises, a value such as `Freeze` gives out is handed to a Lua state
-- and copied out of it again unchanged: arrays with the gaps in them, maps, and whole numbers as
-- whole numbers.
pub freeze-to_lua_lem :
    (p : Floating) (v : Detached) → Exact p → IsFrozen p 0 v → freeze p 0 (to_lua p v) ≡ froze v
freeze-to_lua_lem p v exact h = freeze-to_lua p exact 0 v (omega arith) h
