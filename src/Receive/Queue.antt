-- ===== src/Receive/Queue.antt =====
-- The loop that sends a client's queue: which packets are written, and what is left.
use mathlib.Core.Option
use beam_mp_server.Base.{
  ℕ, zero, suc, ◌≤◌, ◌≡◌, refl, sym, subst, ap, ◌∙◌, Bool, true, false, ◌&&◌, List, [], ◌∷◌, ◌++◌,
  Option, none, some, arith, if◌then◌else◌, length, drop, nat_eq, ==_refl,
}
use beam_mp_server.Base.Dict.{lookup, lookup-adjust}
use beam_mp_server.Base.Text.{Bytes}
use beam_mp_server.Client.{Client, disconnect, is_disconnected, update_ping_time}
use beam_mp_server.World.{
  Outside, World, M, Outcome, ok, threw, go_on, ◌>>=◌, ◌>>◌, return, done, ask, fetch, or_throw,
  modify, note, Effect, wrote,
}
use beam_mp_server.Network.{
  header, disconnect_client, tcp_send, send_now, write_socket, update_ping,
}
use beam_mp_server.Receive.{pop_packet, clear_queue, send_missed, drain}

-- What there is to see of a client: its queue, and whether it is disconnected.
abbrev pub seen : {J : Type 0} → Client J → List Bytes × Bool
seen c = (c.missed, is_disconnected c)

-- The same of a client that is alive.
abbrev pub view : {J : Type 0} → ℕ → World J → Option (List Bytes × Bool)
view h w = Option.map seen (lookup h w.store)

-- The packets of a queue are written one after the other, each with its header, up to the first
-- write that fails: the writes before and after, the latest first, and whether all of them worked.
pub data Writes (h : ℕ) : List Bytes → List Effect → List Effect → Bool → Type 0 where
  all_written : {t : List Effect} → Writes h [] t t true
  written :
      {p : Bytes} {q : List Bytes} {t u : List Effect} {b : Bool}
      → Writes h q (wrote h (header (length p) ++ p) true ∷ t) u b
      → Writes h (p ∷ q) t u b
  failed :
      {p : Bytes} {q : List Bytes} {t : List Effect}
      → Writes h (p ∷ q) t (wrote h (header (length p) ++ p) false ∷ t) false

module _ {J : Type 0} (h : ℕ) where
  view-modify :
      (f : Client J → Client J) (g : List Bytes × Bool → List Bytes × Bool)
      → ((c : Client J) → seen (f c) ≡ g (seen c))
      → (w : World J) → view h (modify h f w).1 ≡ Option.map g (view h w)
  unfolding modify
  view-modify f g e w = rw (lookup-adjust h h f w.store, ==_refl h) (same (lookup h w.store))
    where
      same :
          (c : Option (Client J))
          → Option.map seen (Option.map f c) ≡ Option.map g (Option.map seen c)
      same none = refl
      same (some c) = ap some (e c)

  disconnect-seen : (c : Client J) → seen (disconnect c).1 ≡ (c.missed, true)
  unfolding disconnect
  disconnect-seen c = ground arith

  ping-seen : (now : ℕ) (c : Client J) → seen (update_ping_time now c) ≡ seen c
  unfolding update_ping_time
  ping-seen now c = refl

  popped-seen : (c : Client J) → seen (pop_packet c) ≡ (drop 1 c.missed, is_disconnected c)
  unfolding pop_packet
  popped-seen c = refl

  cleared-seen : (c : Client J) → seen (clear_queue c) ≡ ([], is_disconnected c)
  unfolding clear_queue
  cleared-seen c = refl

  -- A client that can be seen is alive.
  alive :
      (x : List Bytes × Bool) (w : World J)
      → view h w ≡ some x
      → (c : Client J) × ((lookup h w.store ≡ some c) × (seen c ≡ x))
  alive x w e = go (lookup h w.store) e
    where
      go :
          (c : Option (Client J))
          → Option.map seen c ≡ some x
          → (d : Client J) × ((c ≡ some d) × (seen d ≡ x))
      go none e = absurd (ground arith)
      go (some d) e = (d, (refl, ground arith))

  -- A write of a packet, for a client that is seen as `x`.
  abbrev pub Sent : Bytes → List Bytes × Bool → World J → Outcome Bool × World J → Type 0
  Sent p x w r =
      (b : Bool) × (r.0 ≡ ok b)
      × (r.1.trace ≡ wrote h (header (length p) ++ p) b ∷ w.trace)
      × (view h r.1 ≡ some (x.0, if b then x.1 else true))

  pub write_socket_lem :
      (o : Outside J) (s : Bytes) (c : Client J) (w : World J)
      → lookup h w.store ≡ some c
      → (b : Bool) × (write_socket o h s w ≡ (ok b, record w { trace = wrote h s b ∷ w.trace }))
  unfolding write_socket fetch or_throw ◌>>=◌ ◌>>◌ ask note return
  write_socket_lem o s c w found = (c.socket_open && o.write_works w.trace h s, rw found refl)

  pub send_now-Sent :
      (o : Outside J) (p : Bytes) (x : List Bytes × Bool) (w : World J) (b : Bool)
      → view h w ≡ some x
      → write_socket o h (header (length p) ++ p) w
        ≡ (ok b, record w { trace = wrote h (header (length p) ++ p) b ∷ w.trace })
      → Sent p x w (send_now o h p w)
  unfolding send_now ◌>>=◌ modify
  send_now-Sent o p x w b e k = subst (λ r. Sent p x w (go_on r rest)) (sym k) (after b)
    where
      rest : Bool → M J Bool
      rest works = (if works then update_ping h else disconnect_client h) >> return works

      noted : Bool → World J
      noted b = record w { trace = wrote h (header (length p) ++ p) b ∷ w.trace }

      after : (b : Bool) → Sent p x w (rest b (noted b))
      after true =
          unfold ◌>>◌ update_ping ask return in
          (
            true,
            refl,
            refl,
            view-modify (update_ping_time w.now) (λ y. y) (ping-seen w.now) (noted true)
                ∙ ap (Option.map (λ y. y)) e,
          )
      after false =
          unfold ◌>>◌ disconnect_client return in
          (
            false,
            refl,
            refl,
            view-modify (λ d. (disconnect d).1) (λ y. (y.0, true)) disconnect-seen (noted false)
                ∙ ap (Option.map (λ y. (y.0, true))) e,
          )

  tcp_send-Sent :
      (o : Outside J) (p : Bytes) (x : List Bytes × Bool) (w : World J)
      → view h w ≡ some x
      → Sent p x w (tcp_send o h p true w)
  unfolding tcp_send fetch or_throw ◌>>=◌
  tcp_send-Sent o p x w e =
      let (c, (found, look)) = alive x w e in
      let (b, k) = write_socket_lem o (header (length p) ++ p) c w found in
      rw found (send_now-Sent o p x w b e k)

  -- One packet of the queue: it is written and the others are left, or the queue is cleared.
  abbrev Step : Bytes → List Bytes → Bool → World J → Outcome Bool × World J → Type 0
  Step p rest d w r =
      (b : Bool) × (r.0 ≡ ok b)
      × (r.1.trace ≡ wrote h (header (length p) ++ p) b ∷ w.trace)
      × (view h r.1 ≡ some (if b then (rest, d) else ([], true)))

  send_missed-Step :
      (o : Outside J) (p : Bytes) (rest : List Bytes) (d : Bool) (w : World J)
      → view h w ≡ some (p ∷ rest, d)
      → Step p rest d w (send_missed o h (p ∷ rest) w)
  unfolding send_missed ◌>>=◌ ◌>>◌ modify
  send_missed-Step o p rest d w e =
      after (tcp_send o h p true popped) (tcp_send-Sent o p (rest, d) popped left)
    where
      popped : World J
      popped = (modify h pop_packet w).1

      left : view h popped ≡ some (rest, d)
      left =
          view-modify pop_packet (λ y. (drop 1 y.0, y.1)) popped-seen w
          ∙ ap (Option.map (λ y. (drop 1 y.0, y.1))) e

      after_send : Bool → M J Bool
      after_send sent =
          (if sent then done else (disconnect_client h >> modify h clear_queue)) >> return sent

      after :
          (r : Outcome Bool × World J)
          → Sent p (rest, d) popped r
          → Step p rest d w (go_on r after_send)
      after (ok true, u) (true, f, t, v) = unfold ◌>>◌ return done in (true, refl, t, v)
      after (ok true, u) (false, f, t, v) = absurd (ground arith)
      after (ok false, u) (true, f, t, v) = absurd (ground arith)
      after (ok false, u) (false, f, t, v) =
          unfold ◌>>◌ return disconnect_client in
          (
            false,
            refl,
            t,
            view-modify clear_queue (λ y. ([], y.1)) cleared-seen
                  (modify h (λ c. (disconnect c).1) u).1
                ∙ ap (Option.map (λ y. ([], y.1))) (
                    view-modify (λ c. (disconnect c).1) (λ y. (y.0, true)) disconnect-seen u
                    ∙ ap (Option.map (λ y. (y.0, true))) v),
          )
      after (threw, u) (b, f, t, v) = absurd (ground arith)

  -- What the loop leaves: it throws nothing, wrote what `Writes` says, emptied the queue, and
  -- disconnected the client exactly if a write failed.
  abbrev pub Drained : List Bytes → Bool → World J → Outcome (Unit {0}) × World J → Type 0
  Drained q d w r =
      (all : Bool) × (r.0 ≡ ok tt)
      × Writes h q w.trace r.1.trace all
      × (view h r.1 ≡ some ([], if all then d else true))

  -- While no other thread adds to the queue of a client that is alive, and on fuel for one round
  -- more than there are packets: the loop ends and throws nothing. It writes the queue's packets in
  -- their order, each with its header and once, and after a write that fails it writes no more. The
  -- queue is empty then, with what was left of it thrown away; if a write failed the client is
  -- disconnected, and otherwise its connection is as it was.
  pub drain_empties :
      (o : Outside J) (fuel : ℕ) (q : List Bytes) (d : Bool) (w : World J)
      → view h w ≡ some (q, d)
      → length q ≤ fuel
      → Drained q d w (drain o (suc fuel) h w)
  unfolding drain fetch or_throw ◌>>=◌ send_missed return done
  drain_empties o fuel [] d w e le =
      let (c, (found, look)) = alive ([], d) w e in
      let none_left : c.missed ≡ [] = ap (λ y. y.0) look in
      rw (found, none_left) (true, refl, all_written, e)
  drain_empties o zero (p ∷ rest) d w e le = absurd (omega arith)
  drain_empties o (suc fuel) (p ∷ rest) d w e le =
      let (c, (found, look)) = alive (p ∷ rest, d) w e in
      let queue : c.missed ≡ p ∷ rest = ap (λ y. y.0) look in
      rw (found, queue)
        (after (send_missed o h (p ∷ rest) w) (send_missed-Step o p rest d w e)
          (λ u v. drain_empties o fuel rest d u v (omega arith)))
    where
      again : Bool → M J (Unit {0})
      again more = if more then drain o (suc fuel) h else done

      after :
          (r : Outcome Bool × World J)
          → Step p rest d w r
          → ((u : World J) → view h u ≡ some (rest, d) → Drained rest d u (drain o (suc fuel) h u))
          → Drained (p ∷ rest) d w (go_on r again)
      after (ok true, u) (true, f, t, v) k =
          let (all, ended, writes, left) = k u v in
          (
            all,
            ended,
            written (subst (λ x. Writes h rest x (drain o (suc fuel) h u).1.trace all) t writes),
            left,
          )
      after (ok false, u) (false, f, t, v) k =
          (false, refl, subst (λ x. Writes h (p ∷ rest) w.trace x false) (sym t) failed, v)
      after (ok true, u) (false, f, t, v) k = absurd (ground arith)
      after (ok false, u) (true, f, t, v) k = absurd (ground arith)
      after (threw, u) (b, f, t, v) k = absurd (ground arith)
