-- ===== src/Network/Delivery.antt =====
-- `SendToAll` of a packet that goes over TCP: who gets it in its queue.
use beam_mp_server.Base.{
  ℕ, ◌≡◌, refl, inl, inr, Bool, true, false, ◌&&◌, List, [], ◌∷◌, Option, arith, ◌==◌,
  if◌then◌else◌, any_of, nat_eq, Bool-cases, ==_iff,
}
use mathlib.Core.Option
use beam_mp_server.Base.Dict.{lookup, adjust, lookup-adjust}
use beam_mp_server.Base.Text.{Bytes}
use beam_mp_server.Client.{Client, enqueue_packet}
use beam_mp_server.World.{
  Outside, World, ok, ◌>>=◌, ◌>>◌, return, done, or_throw, lock, modify, for_each, for_each_client,
}
use beam_mp_server.Network.{
  goes_by_tcp, queued_form, deliver, is_addressed, receives, send_to_one, send_to_all,
}

-- No client stands twice in the set.
abbrev pub IsMembers : List ℕ → Type 0
IsMembers [] = Unit
IsMembers (h ∷ hs) = (any_of (λ j. j == h) hs ≡ false) × IsMembers hs

module _ {J : Type 0} (o : Outside J) (sender : Option ℕ) (code : ℕ) (packet small : Bytes)
    (self : Bool) where
  -- A client after the packet: with it at the end of its queue if it is to get it.
  abbrev pub queued : ℕ → Option (Client J) → Option (Client J)
  queued h c =
      if receives c && is_addressed sender self h then Option.map (enqueue_packet small) c else c

  abbrev store_after : ℕ → List (ℕ × Client J) → List (ℕ × Client J)
  store_after h store =
      if receives (lookup h store) && is_addressed sender self h
      then adjust h (enqueue_packet small) store
      else store

  abbrev after : List ℕ → World J → World J
  after [] w = w
  after (h ∷ hs) w = after hs (record w { store = store_after h w.store })

  module _ (rel : Bool) (by_tcp : goes_by_tcp o code packet rel ≡ true)
      (form : (w : World J) → queued_form o code packet w ≡ (ok small, w)) where
    deliver_lem :
        (h : ℕ) (w : World J)
        → deliver o code packet rel h w
          ≡ (ok tt, record w { store = adjust h (enqueue_packet small) w.store })
    unfolding deliver ◌>>=◌ modify
    deliver_lem h w = rw (by_tcp, form w) refl

    send_to_one_lem :
        (h : ℕ) (w : World J)
        → send_to_one o sender code packet self rel h w
          ≡ (ok true, record w { store = store_after h w.store })
    unfolding send_to_one lock ◌>>=◌ ◌>>◌ return done
    send_to_one_lem h w =
        elim (Bool-cases (receives (lookup h w.store) && is_addressed sender self h)) [
          | inl e ↦ rw (e, deliver_lem h w) refl
          | inr e ↦ rw e refl
        ]

    for_each_lem :
        (hs : List ℕ) (w : World J)
        → for_each hs (send_to_one o sender code packet self rel) w ≡ (ok tt, after hs w)
    unfolding for_each ◌>>=◌ done
    for_each_lem [] w = refl
    for_each_lem (h ∷ hs) w =
        rw (send_to_one_lem h w) (for_each_lem hs (record w { store = store_after h w.store }))

  lookup-store_after :
      (h j : ℕ) (store : List (ℕ × Client J))
      → lookup j (store_after h store)
        ≡ (if h == j then queued j (lookup j store) else lookup j store)
  lookup-store_after h j store = ground (arith, lookup-adjust h j (enqueue_packet small) store)

  lookup-after :
      (hs : List ℕ) (w : World J) (j : ℕ)
      → IsMembers hs
      → lookup j (after hs w).store
        ≡ (if any_of (λ h. h == j) hs then queued j (lookup j w.store) else lookup j w.store)
  lookup-after [] w j d = refl
  lookup-after (h ∷ hs) w j d = ground (
    arith,
    lookup-after hs (record w { store = store_after h w.store }) j d.1,
    lookup-store_after h j w.store,
    ==_iff h j,
  )

-- For a packet that goes over TCP and is to be queued as `small` (compressed if its size asks for
-- it), with no client twice in the set: `SendToAll` returns without an exception, and each client
-- of the set that is synced or being synced, the sender only if it is to be told too, has the
-- packet once more, at the end of its queue; every other client is as before.
pub send_to_all-queued :
    {J : Type 0} (o : Outside J) (sender : Option ℕ) (code : ℕ) (rest small : Bytes)
    (self rel : Bool) (w : World J)
    → goes_by_tcp o code (code ∷ rest) rel ≡ true
    → ((u : World J) → queued_form o code (code ∷ rest) u ≡ (ok small, u))
    → IsMembers w.members
    → ((send_to_all o sender (code ∷ rest) self rel w).0 ≡ ok tt)
      × ((j : ℕ)
          → lookup j (send_to_all o sender (code ∷ rest) self rel w).1.store ≡ (
              if any_of (λ h. h == j) w.members
              then queued o sender code (code ∷ rest) small self j (lookup j w.store)
              else lookup j w.store))
unfolding send_to_all or_throw ◌>>=◌ for_each_client
send_to_all-queued o sender code rest small self rel w by_tcp form distinct =
    rw (for_each_lem o sender code (code ∷ rest) small self rel by_tcp form w.members w)
      (refl, λ j. lookup-after o sender code (code ∷ rest) small self w.members w j distinct)
