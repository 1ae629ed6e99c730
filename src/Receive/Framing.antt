-- ===== src/Receive/Framing.antt =====
-- What `TCPSend` writes is what `TCPRcv` reads.
use beam_mp_server.Base.{
  ℕ, ◌^◌, ◌≤◌, ◌<◌, ◌≡◌, refl, inl, inr, true, false, [], ◌∷◌, ◌++◌, some, arith, ltb, leb, length,
  length-append, take_append, drop_append, Option-cases, nat_eq,
}
use beam_mp_server.Base.Dict.{lookup}
use beam_mp_server.Base.Ints.{pos}
use beam_mp_server.Base.Text.{Bytes, codes, starts_with}
use beam_mp_server.Client.{Client, is_disconnected}
use beam_mp_server.Compress.{comp, compress_properly, buffer_max}
use beam_mp_server.Compress.Laws.{IsZlib, de_comp-comp}
use beam_mp_server.World.{Outside, World, ok, ◌>>=◌, fetch, or_throw, return}
use beam_mp_server.Network.{header}
use beam_mp_server.Receive.{header_value, max_header_size, unpack, receive_body, tcp_rcv}

pub header_value-header : (n : ℕ) → n < 2 ^ 31 → header_value (header n) ≡ pos n
unfolding header_value header
header_value-header n h = ground arith

max_header_size_bound : (name : Bytes) → max_header_size name < 2 ^ 31
max_header_size_bound [] = omega arith
max_header_size_bound (x ∷ name) = omega arith

module _ {J : Type 0} (o : Outside J) where
  receive_body_lem :
      (h : ℕ) (name p rest : Bytes) (w : World J)
      → length p < max_header_size name
      → receive_body o h name (pos (length p)) (p ++ rest) w ≡ (ok (unpack o p, rest), w)
  unfolding receive_body return
  receive_body_lem h name p rest w small =
      rw (test, room, take_append p rest, drop_append p rest) refl
    where
      test : ltb (length p) (max_header_size name) ≡ true
      test = ground arith

      room : ltb (length (p ++ rest)) (length p) ≡ false
      room = ground (arith, length-append p rest)

  -- A packet smaller than the limit for its sender, with its header in front, is received whole
  -- from a client that is connected, with its compression undone, and what follows it in the
  -- stream is left for the next call; the world is unchanged.
  pub tcp_rcv-header :
      (h : ℕ) (c : Client J) (p rest : Bytes) (w : World J)
      → lookup h w.store ≡ some c
      → is_disconnected c ≡ false
      → length p < max_header_size c.name
      → tcp_rcv o h (header (length p) ++ p ++ rest) w ≡ (ok (unpack o p, rest), w)
  unfolding tcp_rcv fetch or_throw ◌>>=◌ header
  tcp_rcv-header h c p rest w found live small =
      rw (found, live, long, header_value-header (length p) bound)
        (receive_body_lem h c.name p rest w small)
    where
      long : ltb (length (header (length p) ++ p ++ rest)) 4 ≡ false
      long = ground arith

      bound : length p < 2 ^ 31
      bound = omega (arith, max_header_size_bound c.name)

  unpack_marked :
      (s e : Bytes)
      → IsZlib o.zlib
      → length s ≤ buffer_max
      → comp o.zlib s ≡ some e
      → unpack o (codes "ABG:" ++ e) ≡ s
  unfolding unpack starts_with
  unpack_marked s e promises small k = rw (de_comp-comp o.zlib s e promises k, room) refl
    where
      room : leb (length s) buffer_max ≡ true
      room = ground arith

  -- With a zlib that keeps its manual's promises, a text of up to 30 MB that was compressed for
  -- sending is unpacked to itself.
  pub unpack-compress_properly :
      (s d : Bytes)
      → IsZlib o.zlib
      → length s ≤ buffer_max
      → compress_properly o.zlib s ≡ some d
      → unpack o d ≡ s
  unfolding unpack compress_properly
  unpack-compress_properly s d promises small h = elim (Option-cases (comp o.zlib s)) [
    | inl e ↦ ground (arith, e)
    | inr (e, k) ↦ ground (arith, k, unpack_marked s e promises small k)
  ]
