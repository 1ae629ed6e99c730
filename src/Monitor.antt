-- ===== src/Monitor.antt =====
-- src/TPPSMonitor.cpp: one round of the monitor, which drops the players that have fallen silent
-- and sums up the packets per second.
pub mod Timeouts
use beam_mp_server.Base.{
  ℕ, suc, ◌+◌, ◌*◌, ◌/◌, Bool, true, false, not, ◌&&◌, ◌||◌, List, [], ◌∷◌, ◌++◌, Option, none,
  some, ltb, ◌==◌, if◌then◌else◌, length, nat_eq,
}
use beam_mp_server.Base.Dict.{lookup}
use beam_mp_server.Base.Decimal.{to_string}
use beam_mp_server.Base.Text.{Bytes, codes}
use beam_mp_server.Client.{Client, get_car_count, seconds_since_last_ping}
use beam_mp_server.World.{World, M, ok, ◌>>=◌, ◌>>◌, return, done, ask, for_each}
use beam_mp_server.Network.{disconnect_client}

-- What the pass over the clients collects: `C`, `V` and `TimedOutClients`.
pub record Census : Type 0 where
  pub players : ℕ
  pub vehicles : ℕ
  pub timed_out : List ℕ

abbrev pub no_census : Census
no_census = record { players = 0; vehicles = 0; timed_out = [] }

-- The text that `SetPPS` gets.
unfoldable pub pps_text : ℕ → Census → Bytes
pps_text pps s =
    if s.players == 0 || pps == 0 then codes "-" else to_string (pps / s.players / s.vehicles)

module _ {J : Type 0} where
  unfoldable pub is_timed_out : ℕ → Client J → Bool
  is_timed_out now c =
      if ltb (20 * 60) (seconds_since_last_ping now c)
      then true
      else c.is_synced && ltb (1 * 60) (seconds_since_last_ping now c)

  unfoldable pub add_client : ℕ → ℕ → Client J → Census → Census
  add_client now h c s = record s {
    players = if ltb 0 (get_car_count c) then s.players + 1 else s.players;
    vehicles = if ltb 0 (get_car_count c) then s.vehicles + get_car_count c else s.vehicles;
    timed_out = if is_timed_out now c then s.timed_out ++ h ∷ [] else s.timed_out;
  }

  unfoldable pub take_census : ℕ → List ℕ → List (ℕ × Client J) → Census → Census
  take_census now [] store s = s
  take_census now (h ∷ hs) store s = elim (lookup h store) [
    | none ↦ take_census now hs store s
    | some c ↦ take_census now hs store (add_client now h c s)
  ]

  unfoldable pub disconnect_all : List ℕ → M J (Unit {0})
  disconnect_all [] = done
  disconnect_all (h ∷ hs) = do disconnect_client h; disconnect_all hs

  unfoldable pub reset_pps : M J (Unit {0})
  reset_pps w = (ok tt, record w { pps = 0 })

  -- With no client there is nothing to do, and the packets are not counted from new.
  unfoldable pub monitor_round : M J Bytes
  monitor_round = do
    members ← ask (λ w. w.members)
    census ← ask (λ w. take_census w.now w.members w.store no_census)
    pps ← ask (λ w. w.pps)
    if length members == 0
        then return (codes "-")
        else (do disconnect_all census.timed_out; reset_pps; return (pps_text pps census))
