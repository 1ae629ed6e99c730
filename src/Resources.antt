-- ===== src/Resources.antt =====
-- src/TResourceManager.cpp: the list of the mods, with their hashes, and the file that remembers
-- them. A directory is the list of its entries; times are counted from before all of them. The
-- digest of OpenSSL is a parameter, and so is what `operator>>` made of mods.json.
pub mod Totals
pub mod Hashing
pub mod Refresh
mod Kept
pub mod Reload
mod Tests
use beam_mp_server.Base.{
  ℕ, zero, suc, ◌+◌, ◌-◌, ◌*◌, ◌/◌, ◌%◌, ◌^◌, min, Bool, true, false, not, ◌&&◌, ◌||◌, List, [],
  ◌∷◌, ◌++◌, Option, none, some, ltb, leb, ◌==◌, if◌then◌else◌, length, take, drop, is_empty,
  list_beq, any_of, map,
}
use beam_mp_server.App.{text_eq}
use beam_mp_server.Base.Decimal.{to_string}
use beam_mp_server.Base.Dict.{lookup, insert, adjust}
use beam_mp_server.Base.Text.{Bytes, codes, starts_with}
use beam_mp_server.Console.{ensure_count}

-- An entry of the directory: `contents` is what the stream reads, and `size` what `file_size` says.
pub record Entry : Type 0 where
  pub name : Bytes
  pub is_directory : Bool
  pub write_time : ℕ
  pub size : ℕ
  pub contents : Bytes

-- What mods.json remembers of a mod.
pub record Remembered : Type 0 where
  pub last_write : ℕ
  pub file_size : ℕ
  pub hash : Bytes
  pub is_protected : Bool
  pub exists : Bool

abbrev pub ModsDb : Type 0
ModsDb = List (Bytes × Remembered)

pub record ModEntry : Type 0 where
  pub file_name : Bytes
  pub file_size : ℕ
  pub hash : Bytes
  pub is_protected : Bool

-- OpenSSL's digest: its context, and the three calls; `none` is a failure.
pub record Digest (C : Type 0) : Type 0 where
  pub init : Option C
  pub update : C → Bytes → Option C
  pub final : C → Option Bytes

abbrev pub hex_digit : ℕ → ℕ
hex_digit n = if ltb n 10 then 48 + n else 87 + n

-- `{:02x}` for each byte.
unfoldable pub hex : Bytes → Bytes
hex [] = []
hex (b ∷ s) = hex_digit (b / 16) ∷ hex_digit (b % 16) ∷ hex s

module _ {C : Type 0} (d : Digest C) where
  abbrev pub after_update : (C → Option C) → Option C → Option C
  after_update go none = none
  after_update go (some c) = go c

  -- The loop over pieces of 4096 bytes on fuel; it ends early where the file does.
  unfoldable pub update_pieces : ℕ → ℕ → Bytes → C → Option C
  update_pieces zero left stream c = some c
  update_pieces (suc fuel) left stream c =
      let n = min left 4096 in
      let piece = take n stream in
      let rest =
        after_update (update_pieces fuel (left - length piece) (drop n stream))
          (d.update c piece) in
      if left == 0 || is_empty piece then some c else rest

  abbrev pub finish_hash : Option C → Option Bytes
  finish_hash none = none
  finish_hash (some c) = elim (d.final c) [ none ↦ none | some h ↦ some (hex h) ]

  abbrev pub begin_hash : Entry → Option C → Option Bytes
  begin_hash e none = none
  begin_hash e (some c) = finish_hash (update_pieces (suc e.size) e.size e.contents c)

  unfoldable pub hash_file : Entry → Option Bytes
  hash_file e = begin_hash e d.init

abbrev pub ends_with_zip : Bytes → Bool
ends_with_zip name = ltb 4 (length name) && list_beq (drop (length name - 4) name) (codes ".zip")

-- What is passed over: the file of the list itself, and what is no ZIP file.
unfoldable pub is_mod : Entry → Bool
is_mod e = not (list_beq e.name (codes "mods.json")) && ends_with_zip e.name && not e.is_directory

abbrev pub is_current : Entry → Remembered → Bool
is_current e r = not (ltb r.last_write e.write_time) && e.size == r.file_size

abbrev pub entry_of : Entry → Bytes → Bool → ModEntry
entry_of e hash is_protected = record {
  file_name = e.name;
  file_size = e.size;
  hash = hash;
  is_protected = is_protected;
}

abbrev pub State : Type 0
State = ModsDb × List ModEntry

module _ (hashed : Entry → Option Bytes) where
  -- A file that is new or was modified.
  unfoldable pub rehash : Entry → Option Bytes → State → State
  rehash e none s = s
  rehash e (some h) (db, mods) = (
    insert e.name
        (record {
          last_write = e.write_time;
          file_size = e.size;
          hash = h;
          is_protected = false;
          exists = true;
        })
        db,
    mods ++ entry_of e h false ∷ [],
  )

  unfoldable pub use_remembered : Entry → Option Remembered → State → State
  use_remembered e none s = rehash e (hashed e) s
  use_remembered e (some r) (db, mods) =
      if is_current e r
      then (
        adjust e.name (λ x. record x { exists = true }) db,
        mods ++ entry_of e r.hash r.is_protected ∷ [],
      )
      else rehash e (hashed e) (db, mods)

  unfoldable pub refresh_entry : Entry → State → State
  refresh_entry e s = if is_mod e then use_remembered e (lookup e.name s.0) s else s

  unfoldable pub refresh_entries : List Entry → State → State
  refresh_entries [] s = s
  refresh_entries (e ∷ es) s = refresh_entries es (refresh_entry e s)

-- Who is not there any more is forgotten.
unfoldable pub sweep : ModsDb → ModsDb
sweep [] = []
sweep ((name, r) ∷ db) =
    let rest = sweep db in if r.exists then (name, record r { exists = false }) ∷ rest else rest

-- `RefreshFiles`: what mods.json holds afterwards, if it can be written, and the list.
unfoldable pub refresh_files : (Entry → Option Bytes) → List Entry → ModsDb → State
refresh_files hashed es db = let s = refresh_entries hashed es (db, []) in (sweep s.0, s.1)

-- The first mod of that name.
unfoldable pub protect_first : Bytes → Bool → List ModEntry → List ModEntry
protect_first name flag [] = []
protect_first name flag (m ∷ ms) =
    if list_beq m.file_name name
    then record m { is_protected = flag } ∷ ms
    else m ∷ protect_first name flag ms

-- `SetProtected`, with what mods.json holds, if it is there.
unfoldable pub set_protected : Bytes → Bool → State → State
set_protected name flag (db, mods) =
    (adjust name (λ x. record x { is_protected = flag }) db, protect_first name flag mods)

-- The console's `protectmod`, and whether it found the mod.
unfoldable pub command_protect_mod : List Bytes → State → Bool × State
command_protect_mod (name ∷ flag ∷ more) s =
    if ensure_count (name ∷ flag ∷ more) 2 && any_of (λ m. list_beq m.file_name name) s.1
    then (true, set_protected name (list_beq flag (codes "true")) s)
    else (false, s)
command_protect_mod args s = (false, s)

unfoldable pub command_reload_mods :
    (Entry → Option Bytes) → List Entry → List Bytes → State → State
command_reload_mods hashed es args s =
    if ensure_count args 0 then refresh_files hashed es s.0 else s
