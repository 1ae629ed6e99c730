-- ===== src/Monitor/Timeouts.antt =====
-- Whom one round of the monitor drops, and that it never divides by zero.
use beam_mp_server.Base.{
  ℕ, ◌≤◌, ◌-◌, ltb, ◌≡◌, refl, ap, ◌∙◌, Bool, false, ◌&&◌, ◌||◌, List, [], ◌∷◌, ◌++◌, Option, none,
  some, arith, ◌==◌, if◌then◌else◌, length, any_of, nat_eq, inl, inr, ==_iff, Option-cases,
}
use mathlib.Core.Option
use beam_mp_server.Base.Dict.{lookup, adjust, lookup-adjust}
use beam_mp_server.Client.{
  Client, DisconnectState, connected, disconnecting, disconnected, disconnect,
}
use beam_mp_server.World.{
  World, Outcome, M, ok, threw, go_on, ◌>>=◌, ◌>>◌, return, done, ask, modify,
}
use beam_mp_server.Network.{disconnect_client}
use beam_mp_server.Monitor.{
  Census, no_census, is_timed_out, add_client, take_census, disconnect_all, pps_text, reset_pps,
  monitor_round,
}

abbrev pub is_in : ℕ → List ℕ → Bool
is_in h = any_of (λ k. k == h)

is_in-last : (h k : ℕ) (hs : List ℕ) → is_in h (hs ++ k ∷ []) ≡ (is_in h hs || k == h)
is_in-last h k [] = ground arith
is_in-last h k (j ∷ hs) = ground (arith, is_in-last h k hs)

module _ {J : Type 0} where
  abbrev pub dropped : Client J → Client J
  dropped c = (disconnect c).1

  dropped_twice : (c : Client J) → dropped (dropped c) ≡ dropped c
  unfolding disconnect
  dropped_twice c = go c.state refl
    where
      go : (s : DisconnectState) → c.state ≡ s → dropped (dropped c) ≡ dropped c
      go connected e = rw (e, disconnect) refl
      go disconnecting e = rw (e, disconnect) refl
      go disconnected e = rw (e, disconnect) refl

  dropped_map :
      (o : Option (Client J)) → Option.map dropped (Option.map dropped o) ≡ Option.map dropped o
  dropped_map none = refl
  dropped_map (some c) = ap some (dropped_twice c)

  disconnect_all_lem : (hs : List ℕ) (w : World J) → (disconnect_all hs w).0 ≡ ok tt
  unfolding disconnect_all disconnect_client ◌>>◌ modify done
  disconnect_all_lem [] w = refl
  disconnect_all_lem (h ∷ hs) w = disconnect_all_lem hs _

  lookup-disconnect_all :
      (h : ℕ) (hs : List ℕ) (w : World J)
      → lookup h (disconnect_all hs w).1.store
        ≡ (if is_in h hs then Option.map dropped (lookup h w.store) else lookup h w.store)
  unfolding disconnect_all disconnect_client ◌>>◌ modify done
  lookup-disconnect_all h [] w = refl
  lookup-disconnect_all h (k ∷ hs) w =
      lookup-disconnect_all h hs (record w { store = adjust k dropped w.store })
      ∙ ground (arith, lookup-adjust k h dropped w.store, dropped_map (lookup h w.store))

  -- Silent for more than twenty minutes, or for more than one once synced.
  abbrev pub drops : ℕ → Option (Client J) → Bool
  drops now none = false
  drops now (some c) = ltb 1200 (now - c.last_ping) || (c.is_synced && ltb 60 (now - c.last_ping))

  is_timed_out_lem : (now : ℕ) (c : Client J) → is_timed_out now c ≡ drops now (some c)
  unfolding is_timed_out
  is_timed_out_lem now c = ground arith

  is_in-take_census :
      (now h : ℕ) (hs : List ℕ) (store : List (ℕ × Client J)) (s : Census)
      → is_in h (take_census now hs store s).timed_out
        ≡ (is_in h s.timed_out || (is_in h hs && drops now (lookup h store)))
  unfolding take_census add_client
  is_in-take_census now h [] store s = ground arith
  is_in-take_census now h (k ∷ hs) store s = elim (Option-cases (lookup k store)) [
    | inl n ↦
        rw (n, take_census) (is_in-take_census now h hs store s ∙ ground (arith, n, ==_iff k h))
    | inr (c, f) ↦
        rw (f, take_census)
          (is_in-take_census now h hs store (add_client now k c s)
            ∙ ground (arith, f, ==_iff k h, is_in-last h k s.timed_out, is_timed_out_lem now c))
  ]

  -- `C` and `V`: where a player has a car, a car was counted.
  take_census-vehicles :
      (now : ℕ) (hs : List ℕ) (store : List (ℕ × Client J)) (s : Census)
      → s.players ≤ s.vehicles
      → (take_census now hs store s).players ≤ (take_census now hs store s).vehicles
  unfolding take_census add_client
  take_census-vehicles now [] store s h = h
  take_census-vehicles now (k ∷ hs) store s h = elim (Option-cases (lookup k store)) [
    | inl n ↦ rw (n, take_census) (take_census-vehicles now hs store s h)
    | inr (c, f) ↦
        rw (f, take_census)
          (take_census-vehicles now hs store (add_client now k c s) (ground arith))
  ]

  go_on-ok :
      {A : Type 0} (r : Outcome (Unit {0}) × World J) (f : Unit {0} → M J A)
      → r.0 ≡ ok tt
      → go_on r f ≡ f tt r.1
  go_on-ok (ok tt, w) f e = refl
  go_on-ok (threw, w) f e = absurd (ground arith)

  abbrev pub census_of : World J → Census
  census_of w = take_census w.now w.members w.store no_census

  monitor_round-run :
      (w : World J)
      → (length w.members == 0) ≡ false
      → monitor_round w ≡ (
        ok (pps_text w.pps (census_of w)),
        record (disconnect_all (census_of w).timed_out w).1 { pps = 0 },
      )
  unfolding monitor_round ◌>>=◌ ◌>>◌ ask reset_pps return
  monitor_round-run w h = rw h (
      go_on-ok (disconnect_all (census_of w).timed_out w)
        (λ _. reset_pps >> return (pps_text w.pps (census_of w)))
        (disconnect_all_lem (census_of w).timed_out w))

  members-disconnect_all : (hs : List ℕ) (w : World J) → (disconnect_all hs w).1.members ≡ w.members
  unfolding disconnect_all disconnect_client ◌>>◌ modify done
  members-disconnect_all [] w = refl
  members-disconnect_all (h ∷ hs) w = members-disconnect_all hs _

  -- What a round of the monitor does.
  abbrev pub Monitored : World J → Type 0
  Monitored w =
      ((monitor_round w).0 ≡ ok (pps_text w.pps (census_of w)))
      × ((h : ℕ)
          → lookup h (monitor_round w).1.store ≡ (
              if is_in h w.members && drops w.now (lookup h w.store)
              then Option.map dropped (lookup h w.store)
              else lookup h w.store))
      × ((monitor_round w).1.members ≡ w.members)
      × ((monitor_round w).1.pps ≡ 0)
      × ((census_of w).players ≤ (census_of w).vehicles)

  -- A round of the monitor with clients to look at ends without an exception. It disconnects the
  -- clients of the set that have been silent for more than twenty minutes, or for more than one
  -- once they are synced, and changes no other; the set stays as it was, the count of packets starts
  -- from zero, and no division by zero stands in the sum.
  pub monitor_round_lem : (w : World J) → (length w.members == 0) ≡ false → Monitored w
  monitor_round_lem w h = rw (monitor_round-run w h) (
    refl,
    (λ k.
        lookup-disconnect_all k (census_of w).timed_out w
        ∙ ap (λ b. if b then Option.map dropped (lookup k w.store) else lookup k w.store)
            (is_in-take_census w.now k w.members w.store no_census)),
    members-disconnect_all (census_of w).timed_out w,
    refl,
    take_census-vehicles w.now w.members w.store no_census (omega arith),
  )
