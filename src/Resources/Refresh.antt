-- ===== src/Resources/Refresh.antt =====
-- What `RefreshFiles` lists, and that it keeps what `SetProtected` set.
use beam_mp_server.Base.{
  ◌≡◌, refl, sym, ap, ◌∙◌, Bool, true, false, List, [], ◌∷◌, ◌++◌, Option, none, some,
  if◌then◌else◌, list_beq, All, append-nil, append_assoc, Bool-cases, inl, inr,
}
use beam_mp_server.App.{text_eq}
use beam_mp_server.Base.Dict.{lookup, lookup-insert, lookup-adjust}
use beam_mp_server.Base.Text.{Bytes}
use beam_mp_server.Resources.{
  Entry, Remembered, ModsDb, ModEntry, State, is_mod, is_current, entry_of, rehash, use_remembered,
  refresh_entry, refresh_entries, refresh_files,
}

-- No two entries have one name.
abbrev pub Apart : Bytes → List Entry → Type 0
Apart name = All (λ e. list_beq name e.name ≡ false)

abbrev pub Distinct : List Entry → Type 0
Distinct [] = Unit {0}
Distinct (e ∷ es) = Apart e.name es × Distinct es

abbrev pub fresh_hash : Option Bytes → Option (Bytes × Bool)
fresh_hash none = none
fresh_hash (some h) = some (h, false)

module _ (hashed : Entry → Option Bytes) where
  -- The hash and the protection of an entry, from what was remembered of it: both are kept if it was
  -- not modified; else it is hashed anew, and not protected.
  abbrev pub expected : Entry → Option Remembered → Option (Bytes × Bool)
  expected e none = fresh_hash (hashed e)
  expected e (some r) =
      if is_current e r then some (r.hash, r.is_protected) else fresh_hash (hashed e)

  abbrev pub with_entry : Entry → Option (Bytes × Bool) → List ModEntry → List ModEntry
  with_entry e none ms = ms
  with_entry e (some (h, p)) ms = entry_of e h p ∷ ms

  -- The list for a directory, each entry by itself.
  abbrev pub mods_of : ModsDb → List Entry → List ModEntry
  mods_of db [] = []
  mods_of db (e ∷ es) =
      let rest = mods_of db es in
      if is_mod e then with_entry e (expected e (lookup e.name db)) rest else rest

  abbrev pub Unchanged : Entry → ModsDb → ModsDb → Type 0
  Unchanged e db db' = (j : Bytes) → list_beq e.name j ≡ false → lookup j db' ≡ lookup j db

  pub record Listed (e : Entry) (db : ModsDb) (mods : List ModEntry) (s : State) : Type 0 where
    pub others : Unchanged e db s.0
    pub list :
        s.1 ≡ (if is_mod e then mods ++ with_entry e (expected e (lookup e.name db)) [] else mods)

  rehash-Unchanged :
      (e : Entry) (o : Option Bytes) (db : ModsDb) (mods : List ModEntry)
      → Unchanged e db (rehash hashed e o (db, mods)).0
  unfolding rehash
  rehash-Unchanged e none db mods j h = refl
  rehash-Unchanged e (some x) db mods j h = lookup-insert e.name j _ db ∙ rw h refl

  rehash-list :
      (e : Entry) (o : Option Bytes) (db : ModsDb) (mods : List ModEntry)
      → (rehash hashed e o (db, mods)).1 ≡ mods ++ with_entry e (fresh_hash o) []
  unfolding rehash
  rehash-list e none db mods = sym (append-nil mods)
  rehash-list e (some x) db mods = refl

  use_remembered-Unchanged :
      (e : Entry) (o : Option Remembered) (db : ModsDb) (mods : List ModEntry)
      → Unchanged e db (use_remembered hashed e o (db, mods)).0
  unfolding use_remembered
  use_remembered-Unchanged e none db mods j h = rehash-Unchanged e (hashed e) db mods j h
  use_remembered-Unchanged e (some r) db mods j h = elim (Bool-cases (is_current e r)) [
    | inl t ↦ rw t (lookup-adjust e.name j _ db ∙ rw h refl)
    | inr f ↦ rw f (rehash-Unchanged e (hashed e) db mods j h)
  ]

  use_remembered-list :
      (e : Entry) (o : Option Remembered) (db : ModsDb) (mods : List ModEntry)
      → (use_remembered hashed e o (db, mods)).1 ≡ mods ++ with_entry e (expected e o) []
  unfolding use_remembered
  use_remembered-list e none db mods = rehash-list e (hashed e) db mods
  use_remembered-list e (some r) db mods = elim (Bool-cases (is_current e r)) [
    | inl t ↦ rw t refl
    | inr f ↦ rw f (rehash-list e (hashed e) db mods)
  ]

  pub refresh_entry-Listed :
      (e : Entry) (db : ModsDb) (mods : List ModEntry)
      → Listed e db mods (refresh_entry hashed e (db, mods))
  unfolding refresh_entry
  refresh_entry-Listed e db mods = elim (Bool-cases (is_mod e)) [
    | inl t ↦ record {
      others = λ j h. rw t (use_remembered-Unchanged e (lookup e.name db) db mods j h);
      list = rw t (use_remembered-list e (lookup e.name db) db mods);
    }
    | inr f ↦ record { others = λ j h. rw f refl; list = rw f refl }
  ]

  mods_of-same :
      (es : List Entry) (db db' : ModsDb)
      → All (λ e. lookup e.name db' ≡ lookup e.name db) es
      → mods_of db' es ≡ mods_of db es
  mods_of-same [] db db' h = refl
  mods_of-same (e ∷ es) db db' h = rw (h.0, mods_of-same es db db' h.1) refl

  others_same :
      (e : Entry) (es : List Entry) (db db' : ModsDb)
      → Apart e.name es
      → Unchanged e db db'
      → All (λ x. lookup x.name db' ≡ lookup x.name db) es
  others_same e [] db db' a u = tt
  others_same e (x ∷ es) db db' a u = (u x.name a.0, others_same e es db db' a.1 u)

  refresh_entries-list :
      (es : List Entry) (db : ModsDb) (mods : List ModEntry)
      → Distinct es
      → (refresh_entries hashed es (db, mods)).1 ≡ mods ++ mods_of db es
  unfolding refresh_entries
  refresh_entries-list [] db mods d = sym (append-nil mods)
  refresh_entries-list (e ∷ es) db mods d =
      let s = refresh_entry hashed e (db, mods) in
      let l = refresh_entry-Listed e db mods in
      refresh_entries-list es s.0 s.1 d.1
      ∙ ap (λ ms. s.1 ++ ms) (mods_of-same es db s.0 (others_same e es db s.0 d.0 l.others))
      ∙ ap (λ ms. ms ++ mods_of db es) l.list
      ∙ joined (is_mod e) (expected e (lookup e.name db))
    where
      joined :
          (b : Bool) (o : Option (Bytes × Bool))
          → (if b then mods ++ with_entry e o [] else mods) ++ mods_of db es
            ≡ mods ++ (if b then with_entry e o (mods_of db es) else mods_of db es)
      joined false o = refl
      joined true none = ap (λ ms. ms ++ mods_of db es) (append-nil mods)
      joined true (some (h, p)) = append_assoc mods (entry_of e h p ∷ []) (mods_of db es)

  -- Of a directory in which no name stands twice, the list has each ZIP file in its order: with the
  -- hash and the protection that mods.json remembers if it was not modified since, else hashed
  -- anew and not protected, and without those whose hashing fails.
  pub refresh_files-mods_of :
      (es : List Entry) (db : ModsDb) → Distinct es → (refresh_files hashed es db).1 ≡ mods_of db es
  unfolding refresh_files
  refresh_files-mods_of es db d = refresh_entries-list es db [] d
