-- ===== src/Lua/Loops/Timers.antt =====
-- What an expired timer queues, by its strategy.
use beam_mp_server.Base.{
  ℕ, ◌≡◌, refl, ap, ◌∙◌, Bool, true, false, List, [], ◌∷◌, ◌++◌, some, arith, if◌then◌else◌, take,
  drop, is_empty, append-nil, list_beq, list_eq,
}
use beam_mp_server.Base.Dict.{lookup}
use beam_mp_server.Base.Text.{Bytes}
use beam_mp_server.Lua.Registry.{get_event_handlers_for_state}
use beam_mp_server.Lua.Registry.Refines.{view}
use beam_mp_server.Lua.Engine.{
  TimedEvent, StateData, Engine, CallStrategy, best_effort, precise, has_event, has_state, is_found,
}
use beam_mp_server.Lua.Engine.Queues.{calls_to, queued}
use beam_mp_server.Lua.Loops.{fire_handlers, fire, reset}
use beam_mp_server.Lua.Loops.Handlers.{
  accepted, accepted-Queues, fire_handlers-precise, fire_handlers-refused, fire_handlers-first,
}

abbrev handlers_at : TimedEvent → Engine → List Bytes
handlers_at t e = view e.events t.event_name t.state_id

-- The timer's turn leaves the timer so, and queues calls of these handlers in its state.
abbrev pub Fires : ℕ → TimedEvent → Engine → TimedEvent → List Bytes → Type 0
Fires now t e left fs =
    (u : Engine) × (fire now t e ≡ some (left, u))
    × ((s : Bytes)
        → queued s u
          ≡ queued s e ++ (if list_beq t.state_id s then calls_to t.event_name [] fs else []))

fire_lem :
    (now : ℕ) (t : TimedEvent) (e u : Engine) (all : Bool) (fs : List Bytes)
    → fire_handlers t
        (handlers_at t e)
        (record e { events = (get_event_handlers_for_state t.event_name t.state_id e.events).1 })
      ≡ some (all, u)
    → ((s : Bytes)
        → queued s u
          ≡ queued s e ++ (if list_beq t.state_id s then calls_to t.event_name [] fs else []))
    → Fires now t e (if all then reset now t else t) fs
unfolding fire get_event_handlers_for_state
fire_lem now t e u all fs p q = (u, rw p refl, q)

-- The engine once the handlers are looked up.
abbrev looked_up : TimedEvent → Engine → Engine
looked_up t e = record e {
  events = (get_event_handlers_for_state t.event_name t.state_id e.events).1;
}

none_left :
    (t : TimedEvent) (e : Engine) (s : Bytes)
    → queued s (looked_up t e) ≡ queued s e ++ (if list_beq t.state_id s then [] else [])
none_left t e s = ground (arith, append-nil (queued s e))

no_handlers :
    (now : ℕ) (t : TimedEvent) (e : Engine) → handlers_at t e ≡ [] → Fires now t e (reset now t) []
unfolding fire_handlers
no_handlers now t e g =
    fire_lem now t e (looked_up t e) true [] (ap (λ fs. fire_handlers t fs (looked_up t e)) g)
      (none_left t e)

best_effort_idle :
    (now : ℕ) (t : TimedEvent) (d : StateData) (e : Engine) (fs : List Bytes)
    → handlers_at t e ≡ fs
    → t.strategy ≡ best_effort
    → lookup t.state_id e.states ≡ some d
    → has_event t.event_name d.function_queue ≡ false
    → Fires now t e (if is_empty (drop 1 fs) then reset now t else t) (take 1 fs)
best_effort_idle now t d e [] g p h k = no_handlers now t e g
best_effort_idle now t d e (f ∷ fs) g p h k =
    fire_lem now t e (accepted t f d (looked_up t e)) (is_empty fs) (f ∷ [])
      (ap (λ fs. fire_handlers t fs (looked_up t e)) g
        ∙ fire_handlers-first t f fs d (looked_up t e) p h k)
      (accepted-Queues t f d (looked_up t e) h).2

best_effort_busy :
    (now : ℕ) (t : TimedEvent) (d : StateData) (e : Engine) (fs : List Bytes)
    → handlers_at t e ≡ fs
    → t.strategy ≡ best_effort
    → lookup t.state_id e.states ≡ some d
    → has_event t.event_name d.function_queue ≡ true
    → Fires now t e (if is_empty fs then reset now t else t) []
best_effort_busy now t d e [] g p h k = no_handlers now t e g
best_effort_busy now t d e (f ∷ fs) g p h k =
    fire_lem now t e (looked_up t e) false []
      (ap (λ fs. fire_handlers t fs (looked_up t e)) g
        ∙ fire_handlers-refused t f fs d (looked_up t e) p h k)
      (none_left t e)

-- By a strategy, and with a call for the event waiting or not: whether the timer starts again, and
-- which of the handlers are queued.
abbrev pub turn : CallStrategy → Bool → List Bytes → Bool × List Bytes
turn precise busy fs = (true, fs)
turn best_effort false fs = (is_empty (drop 1 fs), take 1 fs)
turn best_effort true fs = (is_empty fs, [])

-- The turn of an expired timer whose state is there. By `Precise` each handler of its event in the
-- state is queued once and the timer starts again. By `BestEffort`, with no call for the event
-- waiting, the first handler alone is queued, and the timer starts again only if there is no second
-- one; with such a call waiting none is queued, and a timer that has a handler stays expired.
pub fire-strategies :
    (now : ℕ) (t : TimedEvent) (d : StateData) (e : Engine)
    → lookup t.state_id e.states ≡ some d
    → let (again, fs) =
        turn t.strategy
          (has_event t.event_name d.function_queue)
          (view e.events t.event_name t.state_id) in
      Fires now t e (if again then reset now t else t) fs
unfolding has_state
fire-strategies now t d e h = go t.strategy (has_event t.event_name d.function_queue) refl refl
  where
    go :
        (how : CallStrategy) (busy : Bool)
        → t.strategy ≡ how
        → has_event t.event_name d.function_queue ≡ busy
        → let (again, fs) = turn how busy (handlers_at t e) in
          Fires now t e (if again then reset now t else t) fs
    go precise busy p k =
        let (u, r, q) =
          fire_handlers-precise t (handlers_at t e) (looked_up t e) p (ap is_found h) in
        fire_lem now t e u true (handlers_at t e) r q.2
    go best_effort false p k = best_effort_idle now t d e (handlers_at t e) refl p h k
    go best_effort true p k = best_effort_busy now t d e (handlers_at t e) refl p h k
