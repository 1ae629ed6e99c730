-- ===== src/Api/Laws.antt =====
-- Which client a plugin's number names, and what a plugin learns of a message that was not sent.
use beam_mp_server.Base.{
  ℕ, ◌≡◌, Bool, true, false, List, [], ◌∷◌, ◌++◌, Option, none, some, if◌then◌else◌, length, All,
  Member, nat_eq,
}
use beam_mp_server.Base.Dict.{lookup}
use beam_mp_server.Base.Ints.{ℤ}
use beam_mp_server.Base.Text.{Bytes, codes}
use beam_mp_server.Client.{Client}
use beam_mp_server.World.{Outside, World, M, Outcome, ok, return, wrote}
use mathlib.Core.Option
use beam_mp_server.Network.{header}
use beam_mp_server.Receive.Queue.{view}
use beam_mp_server.Api.{Report, same_int}

module _ {J : Type 0} where
  abbrev pub has_id : ℤ → Option (Client J) → Bool
  has_id id none = false
  has_id id (some c) = same_int c.id id

  -- What a pass over these clients gives for an id.
  abbrev pub Found : ℤ → List ℕ → List (ℕ × Client J) → Option (ℕ × Client J) → Type 0
  Found id hs store none = All (λ h. has_id id (lookup h store) ≡ false) hs
  Found id hs store (some (h, c)) =
      Member h hs × (lookup h store ≡ some c) × (same_int c.id id ≡ true)

-- A player whom a plugin's number names: a client of the set that is alive and has the id.
abbrev pub IsPlayer : {J : Type 0} → ℤ → World J → ℕ → Client J → Type 0
IsPlayer id w h c = Member h w.members × (lookup h w.store ≡ some c) × (same_int c.id id ≡ true)

-- What comes of a packet for the player of an id: the plugin's report, and the world after it.
pub data Notified {J : Type 0} (id : ℤ) (packet : Bytes) (w : World J)
    : Outcome Report × World J → Type 0 where
  nobody :
      All (λ h. has_id id (lookup h w.store) ≡ false) w.members
      → Notified id packet w (ok (false, codes "Invalid Player ID"), w)
  not_synced :
      (h : ℕ) (c : Client J)
      → IsPlayer id w h c
      → c.is_synced ≡ false
      → Notified id packet w (ok (false, codes "Player is not synced yet"), w)
  put_off :
      (h : ℕ) (c : Client J) (u : World J)
      → IsPlayer id w h c
      → c.is_synced ≡ true
      → c.is_syncing ≡ true
      → u.trace ≡ w.trace
      → Notified id packet w (ok (true, []), u)
  notified :
      (h : ℕ) (c : Client J) (u : World J)
      → IsPlayer id w h c
      → c.is_synced ≡ true
      → u.trace ≡ wrote h (header (length packet) ++ packet) true ∷ w.trace
      → Notified id packet w (ok (true, []), u)
  lost :
      (h : ℕ) (c : Client J) (u : World J)
      → IsPlayer id w h c
      → c.is_synced ≡ true
      → u.trace ≡ wrote h (header (length packet) ++ packet) false ∷ w.trace
      → view h u ≡ some (c.missed, true)
      → Notified id packet w (ok (true, codes "Failed to send packet"), u)

module _ {J : Type 0} (o : Outside J) (id : ℤ) (body : Bytes) (w : World J) where
  packet : Bytes
  packet = codes "n" ++ body

  report : Bool → M J Report
  report sent = return (true, if sent then [] else codes "Failed to send packet")
