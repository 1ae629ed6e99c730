-- ===== src/Lua/Loops.antt =====
-- src/TLuaEngine.cpp: one round of each of the engine's threads (the event loop's timers, the check
-- of results, a state's function queue), and `WaitForAll`.
pub mod Handlers
pub mod Timers
pub mod Drain
pub mod Waiting
use beam_mp_server.Base.{
  ℕ, zero, suc, ◌+◌, ◌-◌, ◌*◌, Bool, true, false, not, ◌&&◌, List, [], ◌∷◌, ◌++◌, Option, none,
  some, ltb, leb, if◌then◌else◌, list_eq,
}
use beam_mp_server.Base.Attempt.{◌>>=◌}
use beam_mp_server.Base.Dict.{lookup, insert}
use beam_mp_server.Base.Text.{Bytes, codes}
use beam_mp_server.Lua.Values.{Floating}
use beam_mp_server.Lua.Registry.{get_event_handlers_for_state}
use beam_mp_server.Lua.Results.{
  CallResult, Returned, valid, invalid, mark_ready_success, mark_ready_error, mark_ready_invalid,
  set_owner_state,
}
use beam_mp_server.Lua.Engine.{
  QueuedFunction, TimedEvent, StateData, Engine, enqueue_from_custom_event, report_errors,
}

unfoldable pub expired : ℕ → TimedEvent → Bool
expired now t = leb t.duration (now - t.last_completion)

unfoldable pub reset : ℕ → TimedEvent → TimedEvent
reset now t = record t { last_completion = now }

-- The two branches after a try to queue a handler: to break off, or to note the result and go on.
abbrev pub after_try :
    Option ℕ × Engine → (Engine → Option (Bool × Engine)) → Option (Bool × Engine)
after_try (none, e) go = some (false, e)
after_try (some h, e) go = go (report_errors (h ∷ []) e)

-- The loop over the handlers of an expired timer: whether each was queued. A state that is not
-- there is a null pointer, `none`.
unfoldable pub fire_handlers : TimedEvent → List Bytes → Engine → Option (Bool × Engine)
fire_handlers t [] e = some (true, e)
fire_handlers t (f ∷ fs) e = elim (lookup t.state_id e.states) [
  | none ↦ none
  | some d ↦
      after_try (enqueue_from_custom_event t.state_id f [] t.event_name t.strategy d e)
        (fire_handlers t fs)
]

-- A timer's turn: a reset, taken back when a handler is refused.
unfoldable pub fire : ℕ → TimedEvent → Engine → Option (TimedEvent × Engine)
fire now t e =
    let found = get_event_handlers_for_state t.event_name t.state_id e.events in
    do
      (all, e) ← fire_handlers t found.0 (record e { events = found.1 })
      some (if all then reset now t else t, e)

unfoldable pub tick : ℕ → List TimedEvent → Engine → Option (List TimedEvent × Engine)
tick now [] e = some ([], e)
tick now (t ∷ ts) e = do
  (t, e) ← if expired now t then fire now t e else some (t, e)
  (ts, e) ← tick now ts e
  some (t ∷ ts, e)

unfoldable pub timed_events_pass : ℕ → Engine → Option Engine
timed_events_pass now e = do
  (ts, e) ← tick now e.timed_events e
  some (record e { timed_events = ts })

abbrev pub nth {ℓ} : {A : Type ℓ} → ℕ → List A → Option A
nth n [] = none
nth zero (x ∷ xs) = some x
nth (suc n) (x ∷ xs) = nth n xs

abbrev pub update_at {ℓ} : {A : Type ℓ} → ℕ → (A → A) → List A → List A
update_at n f [] = []
update_at zero f (x ∷ xs) = f x ∷ xs
update_at (suc n) f (x ∷ xs) = x ∷ update_at n f xs

abbrev pub is_ready : List CallResult → ℕ → Bool
is_ready rs h = elim (nth h rs) [ none ↦ false | some r ↦ r.ready ]

-- `remove_if` of the thread that checks results.
unfoldable pub unchecked : List CallResult → List ℕ → List ℕ
unchecked rs [] = []
unchecked rs (h ∷ hs) = if is_ready rs h then unchecked rs hs else h ∷ unchecked rs hs

unfoldable pub check_results : Engine → Engine
check_results e = record e { results_to_check = unchecked e.results e.results_to_check }

-- What Lua answers to a call: nothing where the name is no function. It may depend on all that
-- happened before; what the function does to the engine while it runs is not modelled.
pub record Lua : Type 0 where
  pub floating : Floating
  pub call : Engine → Bytes → QueuedFunction → Option Returned

abbrev pub or_unserialized : Bool × CallResult → CallResult
or_unserialized (true, r) = r
or_unserialized (false, r) =
    mark_ready_error (codes "Call was successful, but result could not be serialized") r

unfoldable pub finish_call : Floating → Option Returned → CallResult → CallResult
finish_call p none r = mark_ready_error (codes "BEAMMP_FN_NOT_FOUND") r
finish_call p (some (valid o)) r = or_unserialized (mark_ready_success p o r)
finish_call p (some (invalid what)) r = mark_ready_invalid what r

unfoldable pub run_call :
    Lua → Bytes → QueuedFunction → List QueuedFunction → StateData → Engine → Engine
run_call lua state q qs d e =
    let e : Engine = record e {
      states = insert state (record d { function_queue = qs }) e.states;
    } in
    record e {
      results =
          update_at q.result
            (λ r. finish_call lua.floating (lua.call e state q) (set_owner_state d.state_id r))
            e.results;
    }

-- One round of a state's thread through its function queue.
unfoldable pub function_round : Lua → Bytes → Engine → Engine
function_round lua state e = elim (lookup state e.states) [
  | none ↦ e
  | some d ↦ elim d.function_queue [ [] ↦ e | q ∷ qs ↦ run_call lua state q qs d e ]
]

unfoldable pub function_rounds : ℕ → Lua → Bytes → Engine → Engine
function_rounds zero lua state e = e
function_rounds (suc n) lua state e = function_rounds n lua state (function_round lua state e)

abbrev pub over : Option ℕ → ℕ → Bool
over none ms = false
over (some limit) ms = ltb limit ms

-- The polling of one result that `WaitForAll` does every 10 ms, on fuel: whether it was given up,
-- and after how long. `ready` says from the time on whether the result is there.
unfoldable pub poll : ℕ → (ℕ → Bool) → Option ℕ → ℕ → Option (Bool × ℕ)
poll zero ready limit ms = none
poll (suc fuel) ready limit ms =
    let rest = poll fuel ready limit (ms + 10) in
    if ready ms
    then some (false, ms)
    else if over limit (ms + 10)
    then some (true, ms + 10)
    else rest

-- `ready` of a handle and the time since the call; a result that was given up is reported.
unfoldable pub wait_for_all :
    ℕ → (ℕ → ℕ → Bool) → Option ℕ → ℕ → List ℕ → Engine → Option (ℕ × Engine)
wait_for_all fuel ready limit start [] e = some (start, e)
wait_for_all fuel ready limit start (h ∷ hs) e = do
  (cancelled, ms) ← poll fuel (λ t. ready h (start + t)) limit 0
  wait_for_all fuel ready limit (start + ms) hs (if cancelled then report_errors (h ∷ []) e else e)
