-- ===== src/Receive/Datagrams.antt =====
-- A datagram from an address that the client has not bound is without effect.
use beam_mp_server.Base.{
  ℕ, ◌≡◌, refl, inl, inr, Bool, true, false, Option, none, some, arith, if◌then◌else◌, nat_eq, List,
  [], ◌∷◌, Bool-cases,
}
use beam_mp_server.Base.Dict.{lookup}
use beam_mp_server.Base.Ints.{is_id}
use beam_mp_server.Base.Text.{Bytes}
use beam_mp_server.Client.{Client}
use beam_mp_server.World.{
  Outside, World, ok, ◌>>=◌, ◌>>◌, return, done, ask, note, lock, for_each, for_each_client,
}
use beam_mp_server.Receive.{
  is_bound_to, awaits_magic, has_magic, datagram_id, datagram_for, datagram_found, datagram_to,
  datagram, answer_ping,
}

-- No client has bound the address, and none waits for the bytes that the datagram carries.
abbrev pub IsStranger : {J : Type 0} → ℕ → Bytes → World J → Type 0
IsStranger {J} from s w =
    (h : ℕ) (c : Client J)
    → lookup h w.store ≡ some c
    → (is_bound_to from c.udp_addr ≡ false) × (has_magic s c ≡ false)

module _ {J : Type 0} (o : Outside J) (from : ℕ) (s : Bytes) where
  datagram_for_stranger :
      (h : ℕ) (c : Client J) (w : World J)
      → is_bound_to from c.udp_addr ≡ false
      → has_magic s c ≡ false
      → (b : Bool) × (datagram_for o from s h c w ≡ (ok b, w))
  unfolding datagram_for return done ◌>>◌
  datagram_for_stranger h c w a m = elim (Bool-cases (is_id c.id (datagram_id s))) [
    | inl e ↦ elim (Bool-cases (awaits_magic c)) [
      | inl f ↦ rw (e, f, m) (false, refl)
      | inr f ↦ rw (e, f, a) (false, refl)
    ]
    | inr e ↦ rw e (true, refl)
  ]

  module _ (w : World J) (stranger : IsStranger from s w) where
    datagram_found_stranger :
        (h : ℕ) (c : Option (Client J))
        → lookup h w.store ≡ c
        → (b : Bool) × (datagram_found o from s h c w ≡ (ok b, w))
    unfolding datagram_found return
    datagram_found_stranger h none e = (true, refl)
    datagram_found_stranger h (some c) e =
        datagram_for_stranger h c w (stranger h c e).0 (stranger h c e).1

    for_each_stranger : (hs : List ℕ) → for_each hs (datagram_to o from s) w ≡ (ok tt, w)
    unfolding for_each ◌>>=◌ done datagram_to lock
    for_each_stranger [] = refl
    for_each_stranger (h ∷ hs) =
        let found = datagram_found_stranger h (lookup h w.store) refl in
        rw found.1 (go found.0 (for_each_stranger hs))
      where
        go :
            (b : Bool)
            → for_each hs (datagram_to o from s) w ≡ (ok tt, w)
            → (if b then for_each hs (datagram_to o from s) else done) w ≡ (ok tt, w)
        go true e = e
        go false e = refl

    -- A datagram from an address that no client has bound, and that does not carry the 64 bytes
    -- that a client waits for, changes no client, whatever id it claims to have.
    pub datagram_stranger :
        ((datagram o from s w).1.store ≡ w.store) × ((datagram o from s w).1.members ≡ w.members)
    unfolding datagram for_each_client done answer_ping ask note ◌>>=◌
    datagram_stranger = ground (arith, for_each_stranger w.members)
