-- ===== src/Resources/Kept.antt =====
-- What mods.json holds of each entry once `RefreshFiles` went over the directory.
use mathlib.Core.Option
use beam_mp_server.Base.{
  ◌≡◌, refl, sym, ap, ◌∙◌, Bool, true, false, List, [], ◌∷◌, Option, none, some, arith, list_beq,
  list_beq_iff, All, Bool-cases, inl, inr, subst,
}
use beam_mp_server.App.{text_eq}
use beam_mp_server.Base.Dict.{
  IsDict, lookup, lookup-insert, lookup-adjust, insert-IsDict, adjust-IsDict,
}
use beam_mp_server.Base.Text.{Bytes}
use beam_mp_server.Resources.{
  Entry, Remembered, ModsDb, ModEntry, is_mod, is_current, rehash, use_remembered, refresh_entry,
  refresh_entries,
}
use beam_mp_server.Resources.Refresh.{
  Apart, Distinct, fresh_hash, expected, Unchanged, refresh_entry-Listed,
}

list_beq_refl : (s : Bytes) → list_beq s s ≡ true
list_beq_refl s = (list_beq_iff s s).1 refl

pub list_beq_sym : (s t : Bytes) → list_beq s t ≡ false → list_beq t s ≡ false
list_beq_sym s t h = ground (arith, list_beq_iff s t, list_beq_iff t s)

-- What mods.json says of an entry with the given outcome: it is current, or its hashing failed, and
-- then what was remembered before is still there.
abbrev pub Kept :
    Entry → Option Bytes → Option Remembered → Option (Bytes × Bool) → Option Remembered → Type 0
Kept e hash old none o = (o ≡ old) × (hash ≡ none)
Kept e hash old (some (h, p)) o =
    (r : Remembered) × (o ≡ some r)
    × (is_current e r ≡ true)
    × (r.hash ≡ h)
    × (r.is_protected ≡ p)
    × (r.exists ≡ true)

abbrev new_entry : Entry → Bytes → Remembered
new_entry e h = record {
  last_write = e.write_time;
  file_size = e.size;
  hash = h;
  is_protected = false;
  exists = true;
}

is_current_new : (e : Entry) (h : Bytes) → is_current e (new_entry e h) ≡ true
is_current_new e h = ground arith

module _ (hashed : Entry → Option Bytes) where
  rehash-Kept :
      (e : Entry) (hash : Option Bytes) (db : ModsDb) (mods : List ModEntry)
      → Kept e hash
          (lookup e.name db)
          (fresh_hash hash)
          (lookup e.name (rehash hashed e hash (db, mods)).0)
  unfolding rehash
  rehash-Kept e none db mods = (refl, refl)
  rehash-Kept e (some h) db mods = (
    new_entry e h,
    lookup-insert e.name e.name (new_entry e h) db ∙ rw (list_beq_refl e.name) refl,
    is_current_new e h,
    refl,
    refl,
    refl,
  )

  use_remembered-Kept :
      (e : Entry) (o : Option Remembered) (db : ModsDb) (mods : List ModEntry)
      → lookup e.name db ≡ o
      → Kept e
          (hashed e)
          (lookup e.name db)
          (expected hashed e o)
          (lookup e.name (use_remembered hashed e o (db, mods)).0)
  unfolding use_remembered
  use_remembered-Kept e none db mods h = rehash-Kept e (hashed e) db mods
  use_remembered-Kept e (some r) db mods h = elim (Bool-cases (is_current e r)) [
    | inl t ↦ rw t (
      record r { exists = true },
      lookup-adjust e.name e.name _ db ∙ rw (list_beq_refl e.name) (ap (Option.map _) h),
      t,
      refl,
      refl,
      refl,
    )
    | inr f ↦ rw f (rehash-Kept e (hashed e) db mods)
  ]

  refresh_entry-Kept :
      (e : Entry) (db : ModsDb) (mods : List ModEntry)
      → is_mod e ≡ true
      → Kept e
          (hashed e)
          (lookup e.name db)
          (expected hashed e (lookup e.name db))
          (lookup e.name (refresh_entry hashed e (db, mods)).0)
  unfolding refresh_entry
  refresh_entry-Kept e db mods h = rw h (use_remembered-Kept e (lookup e.name db) db mods refl)

  refresh_entries-Unchanged :
      (es : List Entry) (db : ModsDb) (mods : List ModEntry) (j : Bytes)
      → Apart j es
      → lookup j (refresh_entries hashed es (db, mods)).0 ≡ lookup j db
  unfolding refresh_entries
  refresh_entries-Unchanged [] db mods j a = refl
  refresh_entries-Unchanged (e ∷ es) db mods j a =
      let s = refresh_entry hashed e (db, mods) in
      refresh_entries-Unchanged es s.0 s.1 j a.1
      ∙ (refresh_entry-Listed hashed e db mods).others j (list_beq_sym j e.name a.0)

  abbrev pub KeptIn : ModsDb → ModsDb → Entry → Type 0
  KeptIn db db' e =
      is_mod e ≡ true
      → Kept e (hashed e) (lookup e.name db) (expected hashed e (lookup e.name db))
          (lookup e.name db')

  moved :
      (e : Entry) (es : List Entry) (db db' final : ModsDb)
      → Apart e.name es
      → Unchanged hashed e db db'
      → All (KeptIn db' final) es
      → All (KeptIn db final) es
  moved e [] db db' final a u h = tt
  moved e (x ∷ es) db db' final a u h = (
    (λ m.
        subst (λ o. Kept x (hashed x) o (expected hashed x o) (lookup x.name final)) (u x.name a.0)
          (h.0 m)),
    moved e es db db' final a.1 u h.1,
  )

  pub refresh_entries-Kept :
      (es : List Entry) (db : ModsDb) (mods : List ModEntry)
      → Distinct es
      → All (KeptIn db (refresh_entries hashed es (db, mods)).0) es
  unfolding refresh_entries
  refresh_entries-Kept [] db mods d = tt
  refresh_entries-Kept (e ∷ es) db mods d =
      let s = refresh_entry hashed e (db, mods) in
      let final = (refresh_entries hashed es s).0 in
      (
        (λ m.
            subst
              (λ o. Kept e (hashed e) (lookup e.name db) (expected hashed e (lookup e.name db)) o)
              (sym (refresh_entries-Unchanged es s.0 s.1 e.name d.0))
              (refresh_entry-Kept e db mods m)),
        moved e es db s.0 final d.0 (refresh_entry-Listed hashed e db mods).others
            (refresh_entries-Kept es s.0 s.1 d.1),
      )

  rehash-IsDict :
      (e : Entry) (o : Option Bytes) (db : ModsDb) (mods : List ModEntry)
      → IsDict db
      → IsDict (rehash hashed e o (db, mods)).0
  unfolding rehash
  rehash-IsDict e none db mods d = d
  rehash-IsDict e (some h) db mods d = insert-IsDict e.name (new_entry e h) db d

  use_remembered-IsDict :
      (e : Entry) (o : Option Remembered) (db : ModsDb) (mods : List ModEntry)
      → IsDict db
      → IsDict (use_remembered hashed e o (db, mods)).0
  unfolding use_remembered
  use_remembered-IsDict e none db mods d = rehash-IsDict e (hashed e) db mods d
  use_remembered-IsDict e (some r) db mods d = elim (Bool-cases (is_current e r)) [
    | inl t ↦ rw t (adjust-IsDict e.name _ db d)
    | inr f ↦ rw f (rehash-IsDict e (hashed e) db mods d)
  ]

  refresh_entry-IsDict :
      (e : Entry) (db : ModsDb) (mods : List ModEntry)
      → IsDict db
      → IsDict (refresh_entry hashed e (db, mods)).0
  unfolding refresh_entry
  refresh_entry-IsDict e db mods d = elim (Bool-cases (is_mod e)) [
    | inl t ↦ rw t (use_remembered-IsDict e (lookup e.name db) db mods d)
    | inr f ↦ rw f d
  ]

  pub refresh_entries-IsDict :
      (es : List Entry) (db : ModsDb) (mods : List ModEntry)
      → IsDict db
      → IsDict (refresh_entries hashed es (db, mods)).0
  unfolding refresh_entries
  refresh_entries-IsDict [] db mods d = d
  refresh_entries-IsDict (e ∷ es) db mods d =
      let s = refresh_entry hashed e (db, mods) in
      refresh_entries-IsDict es s.0 s.1 (refresh_entry-IsDict e db mods d)
