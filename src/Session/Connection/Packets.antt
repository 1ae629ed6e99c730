-- ===== src/Session/Connection/Packets.antt =====
-- A packet that is received is taken off the stream.
use beam_mp_server.Base.{
  ℕ, ◌<◌, ◌≡◌, refl, true, [], arith, ltb, if◌then◌else◌, length, length-drop, take, drop, is_empty,
  nat_eq, ◌⊎◌, inl, inr, Option-cases, Bool-cases,
}
use beam_mp_server.Base.Ints.{ℤ, pos, negsuc}
use beam_mp_server.Base.Dict.{lookup}
use beam_mp_server.Base.Text.{Bytes, codes}
use beam_mp_server.Client.{Client, is_disconnected}
use beam_mp_server.World.{
  Outside, World, Outcome, ok, threw, go_on, ◌>>=◌, ◌>>◌, return, fetch, or_throw,
}
use beam_mp_server.Network.{client_kick}
use beam_mp_server.Receive.{tcp_rcv, receive_body, header_value, max_header_size, unpack}

-- A packet, if there is one, was taken off the stream.
abbrev pub Shorter : {J : Type 0} → Bytes → Outcome (Bytes × Bytes) × World J → Type 0
Shorter stream (ok (s, rest), w) = (is_empty s ≡ true) ⊎ (length rest < length stream)
Shorter stream (threw, w) = Unit

module _ {J : Type 0} (o : Outside J) (h : ℕ) where
  kick_Shorter :
      (stream rest : Bytes) (r : Outcome (Unit {0}) × World J)
      → Shorter stream (go_on r (λ _. return ([], rest)))
  unfolding return
  kick_Shorter stream rest (ok tt, w) = inl refl
  kick_Shorter stream rest (threw, w) = tt

  receive_body-Shorter :
      (name : Bytes) (n : ℤ) (s stream : Bytes) (w : World J)
      → length s < length stream
      → Shorter stream (receive_body o h name n s w)
  unfolding receive_body ◌>>◌ return
  receive_body-Shorter name (negsuc n) s stream w b =
      kick_Shorter stream s (client_kick o h (codes "Invalid packet - header negative") w)
  receive_body-Shorter name (pos n) s stream w b =
      elim (Bool-cases (ltb n (max_header_size name))) [
        | inl e ↦ rw e (long_enough name n s stream w b)
        | inr e ↦
            rw e (kick_Shorter stream s (client_kick o h (codes "Header size limit exceeded") w))
      ]
    where
      long_enough :
          (name : Bytes) (n : ℕ) (s stream : Bytes) (w : World J)
          → length s < length stream
          → Shorter stream (
              (if ltb (length s) n then return ([], []) else return (unpack o (take n s), drop n s))
                w)
      long_enough name n s stream w b = elim (Bool-cases (ltb (length s) n)) [
        | inl e ↦ rw e (inl refl)
        | inr e ↦ rw e (inr (omega (arith, length-drop n s)))
      ]

  pub tcp_rcv-Shorter : (stream : Bytes) (w : World J) → Shorter stream (tcp_rcv o h stream w)
  unfolding tcp_rcv fetch ◌>>=◌ or_throw return
  tcp_rcv-Shorter stream w = elim (Option-cases (lookup h w.store)) [
    | inl n ↦ rw n tt
    | inr (c, e) ↦ rw e (live c stream w)
  ]
    where
      live :
          (c : Client J) (stream : Bytes) (w : World J)
          → Shorter stream (
              (if is_disconnected c
                  then return ([], stream)
                  else if ltb (length stream) 4
                  then return ([], [])
                  else receive_body o h c.name (header_value (take 4 stream)) (drop 4 stream))
                w)
      live c stream w = elim (Bool-cases (is_disconnected c)) [
        | inl left ↦ rw left (inl refl)
        | inr alive ↦ elim (Bool-cases (ltb (length stream) 4)) [
          | inl short ↦ rw (alive, short) (inl refl)
          | inr long ↦
              rw (alive, long)
                (receive_body-Shorter c.name (header_value (take 4 stream)) (drop 4 stream) stream w
                  (ground (arith, length-drop 4 stream)))
        ]
      ]
