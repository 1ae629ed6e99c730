-- ===== src/Resources/Reload.antt =====
-- A reload of the mods keeps the list as it is, with what `SetProtected` set.
use mathlib.Core.Option
use beam_mp_server.Base.{
  ◌≡◌, refl, sym, ap, ◌∙◌, Bool, true, false, List, [], ◌∷◌, Option, none, some, arith,
  if◌then◌else◌, list_beq, list_beq_iff, All, map, Bool-cases, inl, inr, subst, ◌⊎◌,
}
use beam_mp_server.App.{text_eq}
use beam_mp_server.Base.Dict.{IsDict, lookup, adjust, lookup-adjust}
use beam_mp_server.Base.Text.{Bytes}
use beam_mp_server.Resources.{
  Entry, Remembered, ModsDb, ModEntry, is_mod, entry_of, refresh_entries, sweep, refresh_files,
  protect_first, set_protected,
}
use beam_mp_server.Resources.Refresh.{
  Apart, Distinct, expected, with_entry, mods_of, refresh_files-mods_of,
}
use beam_mp_server.Resources.Kept.{
  Kept, KeptIn, list_beq_sym, refresh_entries-Kept, refresh_entries-IsDict,
}

abbrev swept : Option Remembered → Option Remembered
swept none = none
swept (some r) = if r.exists then some (record r { exists = false }) else none

lookup-sweep : (j : Bytes) (db : ModsDb) → IsDict db → lookup j (sweep db) ≡ swept (lookup j db)
unfolding lookup sweep
lookup-sweep j [] d = refl
lookup-sweep j ((n, r) ∷ db) d =
    go r.exists (Bool-cases (list_beq n j)) refl (lookup-sweep j db d.1)
  where
    gone : list_beq n j ≡ true → lookup j db ≡ none
    gone e = subst (λ k. lookup k db ≡ none) ((list_beq_iff n j).0 e) d.0

    go :
        (b : Bool)
        → (list_beq n j ≡ true) ⊎ (list_beq n j ≡ false)
        → r.exists ≡ b
        → lookup j (sweep db) ≡ swept (lookup j db)
        → lookup j (if b then (n, record r { exists = false }) ∷ sweep db else sweep db)
          ≡ swept (if list_beq n j then some r else lookup j db)
    go true (inl e) x ih = rw e (rw x refl)
    go true (inr e) x ih = rw e ih
    go false (inl e) x ih = rw e (rw x (ih ∙ ap swept (gone e)))
    go false (inr e) x ih = rw e ih

swept_seen :
    (r : Remembered) → r.exists ≡ true → swept (some r) ≡ some (record r { exists = false })
swept_seen r h = go r.exists h
  where
    go :
        (b : Bool)
        → b ≡ true
        → (if b then some (record r { exists = false }) else none)
          ≡ some (record r { exists = false })
    go true h = refl
    go false h = absurd (ground arith)

list_beq_comm : (s t : Bytes) → list_beq s t ≡ list_beq t s
list_beq_comm s t = ground (arith, list_beq_iff s t, list_beq_iff t s)

-- The list with the flag set for one name.
abbrev flagged : Bytes → Bool → ModEntry → ModEntry
flagged name flag m = if list_beq m.file_name name then record m { is_protected = flag } else m

abbrev set_flag : Bool → Bool → Option Remembered → Option Remembered
set_flag b flag o =
    if b then Option.map (λ (x : Remembered). record x { is_protected = flag }) o else o

abbrev flag_outcome : Bool → Bool → Option (Bytes × Bool) → Option (Bytes × Bool)
flag_outcome b flag none = none
flag_outcome b flag (some (h, p)) = some (h, if b then flag else p)

abbrev pub NotSeen : ModsDb → Type 0
NotSeen db = (j : Bytes) (r : Remembered) → lookup j db ≡ some r → r.exists ≡ false

pub NotSeen-All : (db : ModsDb) → All (λ p. p.1.exists ≡ false) db → NotSeen db
unfolding lookup
NotSeen-All [] h j r e = absurd (ground arith)
NotSeen-All ((n, x) ∷ db) h j r e = elim (Bool-cases (list_beq n j)) [
  | inl t ↦ subst (λ (y : Remembered). y.exists ≡ false) (some_inj x r (sym (rw t refl) ∙ e)) h.0
  | inr f ↦ NotSeen-All db h.1 j r (sym (rw f refl) ∙ e)
]
  where
    some_inj : (a b : Remembered) → some a ≡ some b → a ≡ b
    some_inj a b e = ground arith

module _ (hashed : Entry → Option Bytes) where
  set_flag-expected :
      (e : Entry) (old : Option Remembered) (x : Option (Bytes × Bool)) (o : Option Remembered)
      (b flag : Bool)
      → ((r : Remembered) → old ≡ some r → r.exists ≡ false)
      → Kept e (hashed e) old x o
      → expected hashed e (set_flag b flag (swept o)) ≡ flag_outcome b flag x
  set_flag-expected e none none o true flag f k = rw k.0 (rw k.1 refl)
  set_flag-expected e none none o false flag f k = rw k.0 (rw k.1 refl)
  set_flag-expected e (some r) none o true flag f k = rw k.0 (rw (f r refl) (rw k.1 refl))
  set_flag-expected e (some r) none o false flag f k = rw k.0 (rw (f r refl) (rw k.1 refl))
  set_flag-expected e old (some (h, p)) o b flag f k =
      let r = k.0 in
      ap (λ x. expected hashed e (set_flag b flag (swept x))) k.1
      ∙ ap (λ x. expected hashed e (set_flag b flag x)) (swept_seen r k.5)
      ∙ seen b
    where
      cleared : Remembered
      cleared = record k.0 { exists = false }

      seen :
          (b : Bool)
          → expected hashed e (set_flag b flag (some cleared)) ≡ some (h, if b then flag else p)
      seen true = rw k.2 (ap (λ x. some (x, flag)) k.3)
      seen false = rw k.2 (ap (λ x. some (x, k.0.is_protected)) k.3 ∙ ap (λ x. some (h, x)) k.4)

  with_entry-flagged :
      (name : Bytes) (flag : Bool) (e : Entry) (o : Option (Bytes × Bool)) (ms : List ModEntry)
      → with_entry hashed e
          (flag_outcome (list_beq e.name name) flag o)
          (map (flagged name flag) ms)
        ≡ map (flagged name flag) (with_entry hashed e o ms)
  with_entry-flagged name flag e none ms = refl
  with_entry-flagged name flag e (some (h, p)) ms = go (list_beq e.name name)
    where
      go :
          (b : Bool)
          → entry_of e h (if b then flag else p) ∷ map (flagged name flag) ms
            ≡ (if b then record (entry_of e h p) { is_protected = flag } else entry_of e h p)
              ∷ map (flagged name flag) ms
      go true = refl
      go false = refl

  mods_of-flagged :
      (name : Bytes) (flag : Bool) (db db' : ModsDb) (es : List Entry)
      → All
          (λ e.
            is_mod e ≡ true
            → expected hashed e (lookup e.name db')
              ≡ flag_outcome (list_beq e.name name) flag (expected hashed e (lookup e.name db)))
          es
      → mods_of hashed db' es ≡ map (flagged name flag) (mods_of hashed db es)
  mods_of-flagged name flag db db' [] h = refl
  mods_of-flagged name flag db db' (e ∷ es) h = elim (Bool-cases (is_mod e)) [
    | inl t ↦ rw t (
        rw (h.0 t, mods_of-flagged name flag db db' es h.1)
          (with_entry-flagged name flag e (expected hashed e (lookup e.name db))
            (mods_of hashed db es)))
    | inr f ↦ rw f (mods_of-flagged name flag db db' es h.1)
  ]

  map-flagged :
      (name : Bytes) (flag : Bool) (db : ModsDb) (es : List Entry)
      → Apart name es
      → map (flagged name flag) (mods_of hashed db es) ≡ mods_of hashed db es
  map-flagged name flag db [] a = refl
  map-flagged name flag db (e ∷ es) a =
      go (is_mod e) (expected hashed e (lookup e.name db)) (map-flagged name flag db es a.1)
    where
      rest : List ModEntry
      rest = mods_of hashed db es

      go :
          (b : Bool) (o : Option (Bytes × Bool))
          → map (flagged name flag) rest ≡ rest
          → map (flagged name flag) (if b then with_entry hashed e o rest else rest)
            ≡ (if b then with_entry hashed e o rest else rest)
      go false o ih = ih
      go true none ih = ih
      go true (some (h, p)) ih = rw (list_beq_sym name e.name a.0) (ap (◌∷◌ (entry_of e h p)) ih)

  protect_first-map :
      (name : Bytes) (flag : Bool) (db : ModsDb) (es : List Entry)
      → Distinct es
      → protect_first name flag (mods_of hashed db es)
        ≡ map (flagged name flag) (mods_of hashed db es)
  unfolding protect_first
  protect_first-map name flag db [] d = refl
  protect_first-map name flag db (e ∷ es) d =
      go (is_mod e) (expected hashed e (lookup e.name db)) (Bool-cases (list_beq e.name name))
        (protect_first-map name flag db es d.1)
    where
      rest : List ModEntry
      rest = mods_of hashed db es

      alone : list_beq e.name name ≡ true → map (flagged name flag) rest ≡ rest
      alone t =
          map-flagged name flag db es (subst (λ n. Apart n es) ((list_beq_iff e.name name).0 t) d.0)

      go :
          (b : Bool) (o : Option (Bytes × Bool))
          → (list_beq e.name name ≡ true) ⊎ (list_beq e.name name ≡ false)
          → protect_first name flag rest ≡ map (flagged name flag) rest
          → protect_first name flag (if b then with_entry hashed e o rest else rest)
            ≡ map (flagged name flag) (if b then with_entry hashed e o rest else rest)
      go false o c ih = ih
      go true none c ih = ih
      go true (some (h, p)) (inl t) ih = rw t (ap (◌∷◌ (entry_of e h flag)) (sym (alone t)))
      go true (some (h, p)) (inr f) ih = rw f (ap (◌∷◌ (entry_of e h p)) ih)

  final_outcomes :
      (name : Bytes) (flag : Bool) (db final : ModsDb) (es : List Entry)
      → NotSeen db
      → IsDict final
      → All (KeptIn hashed db final) es
      → All
          (λ e.
            is_mod e ≡ true
            → expected hashed e (
                lookup e.name (
                  adjust name (λ (x : Remembered). record x { is_protected = flag }) (sweep final)))
              ≡ flag_outcome (list_beq e.name name) flag (expected hashed e (lookup e.name db)))
          es
  final_outcomes name flag db final [] n d k = tt
  final_outcomes name flag db final (e ∷ es) n d k = (
    (λ m.
        ap (expected hashed e) (
          lookup-adjust name e.name _ (sweep final)
          ∙ rw (list_beq_comm name e.name)
              (ap (set_flag (list_beq e.name name) flag) (lookup-sweep e.name final d)))
        ∙ set_flag-expected e (lookup e.name db) (expected hashed e (lookup e.name db))
            (lookup e.name final) (list_beq e.name name) flag (n e.name) (k.0 m)),
    final_outcomes name flag db final es n d k.1,
  )

  -- In a directory in which no name stands twice and that stays as it is: if the mods are loaded, then
  -- `SetProtected` is called, and then they are loaded again from the file that these two left,
  -- the list is the one that `SetProtected` left. A reload changes nothing, and protects and
  -- unprotects no mod.
  pub refresh_files-set_protected :
      (es : List Entry) (db : ModsDb) (name : Bytes) (flag : Bool)
      → Distinct es
      → IsDict db
      → NotSeen db
      → (refresh_files hashed es (set_protected name flag (refresh_files hashed es db)).0).1
        ≡ (set_protected name flag (refresh_files hashed es db)).1
  unfolding set_protected refresh_files
  refresh_files-set_protected es db name flag d i n =
      let final = (refresh_entries hashed es (db, [])).0 in
      let again =
        adjust name (λ (x : Remembered). record x { is_protected = flag }) (sweep final) in
      refresh_files-mods_of hashed es again d
      ∙ mods_of-flagged name flag db again es (
          final_outcomes name flag db final es n (refresh_entries-IsDict hashed es db [] i)
            (refresh_entries-Kept hashed es db [] d))
      ∙ sym (protect_first-map name flag db es d)
      ∙ ap (protect_first name flag) (sym (refresh_files-mods_of hashed es db d))
