-- ===== src/Lua/Engine.antt =====
-- src/TLuaEngine.cpp: the engine's state, and the calls that queue functions and make timers. A
-- `TLuaResult` is named by a handle, as a `shared_ptr` names it: `results` holds the objects.
pub mod Queues
pub mod Triggers
use beam_mp_server.Base.{
  ℕ, zero, suc, ◌+◌, ◌*◌, Bool, true, false, not, ◌&&◌, List, [], ◌∷◌, ◌++◌, Option, none, some,
  leb, ◌==◌, if◌then◌else◌, length, any_of, list_beq, list_eq, nat_eq,
}
use beam_mp_server.Base.Attempt.{◌>>=◌}
use beam_mp_server.Base.Dict.{lookup, insert}
use beam_mp_server.Base.Ints.{ℤ}
use beam_mp_server.Base.Text.{Bytes, codes}
use beam_mp_server.Lua.Registry.{Registry, Handlers, register_event, get_event_handlers_for_state}
use beam_mp_server.Lua.Results.{CallResult, new_call_result}

-- `TLuaValue`; a `float` is its bits.
pub data TLuaValue : Type 0 where
  no_value : TLuaValue
  string_value : Bytes → TLuaValue
  int_value : ℤ → TLuaValue
  json_value : Bytes → TLuaValue
  bool_value : Bool → TLuaValue
  map_value : List (Bytes × Bytes) → TLuaValue
  float_value : ℕ → TLuaValue

pub data CallStrategy : Type 0 where
  best_effort precise : CallStrategy

pub record QueuedFunction : Type 0 where
  pub function_name : Bytes
  pub result : ℕ
  pub args : List TLuaValue
  pub event_name : Bytes

-- `StateThreadData`, as far as its function queue goes.
pub record StateData : Type 0 where
  pub name : Bytes
  pub state_id : Bytes
  pub function_queue : List QueuedFunction

-- Times in nanoseconds.
pub record TimedEvent : Type 0 where
  pub duration : ℕ
  pub last_completion : ℕ
  pub event_name : Bytes
  pub state_id : Bytes
  pub strategy : CallStrategy

pub record Engine : Type 0 where
  pub states : List (Bytes × StateData)
  pub events : Registry
  pub timed_events : List TimedEvent
  pub results : List CallResult
  pub results_to_check : List ℕ

abbrev pub has_event : Bytes → List QueuedFunction → Bool
has_event event = any_of (λ q. list_beq q.event_name event)

abbrev pub is_best_effort : CallStrategy → Bool
is_best_effort best_effort = true
is_best_effort precise = false

-- `make_shared<TLuaResult>` and the push to the end of the queue: the handle, and the state that
-- `mLuaStates` holds then.
unfoldable pub push_call : Bytes → Bytes → List TLuaValue → Bytes → StateData → Engine → ℕ × Engine
push_call state function args event d e =
    let q : QueuedFunction = record {
      function_name = function;
      result = length e.results;
      args = args;
      event_name = event;
    } in
    (
      length e.results,
      record e {
        results = e.results ++ new_call_result d.state_id function ∷ [];
        states = insert state (record d { function_queue = d.function_queue ++ q ∷ [] }) e.states;
      },
    )

-- `none` is the exception of `at` for a state that does not exist.
unfoldable pub enqueue_function_call :
    Bytes → Bytes → List TLuaValue → Bytes → Engine → Option (ℕ × Engine)
enqueue_function_call state function args event e = elim (lookup state e.states) [
  | none ↦ none
  | some d ↦ some (push_call state function args event d e)
]

-- `EnqueueFunctionCallFromCustomEvent` of a state; no handle is its `nullptr`.
unfoldable pub enqueue_from_custom_event :
    Bytes → Bytes → List TLuaValue → Bytes → CallStrategy → StateData → Engine → Option ℕ × Engine
enqueue_from_custom_event state function args event strategy d e =
    let pushed = push_call state function args event d e in
    if is_best_effort strategy && has_event event d.function_queue
    then (none, e)
    else (some pushed.0, pushed.1)

abbrev pub is_found {ℓ} : {A : Type ℓ} → Option A → Bool
is_found none = false
is_found (some a) = true

unfoldable pub has_state : Bytes → Engine → Bool
has_state state e = is_found (lookup state e.states)

-- `EnsureStateExists` up to the call of `onInit`, of which the handle is given back where it is
-- made: the constructor registers nothing, and the new state has an empty queue.
unfoldable pub ensure_state_exists : Bytes → Bytes → Bool → Engine → Option ℕ × Engine
ensure_state_exists state name dont_call_on_init e =
    let d : StateData = record { name = name; state_id = state; function_queue = [] } in
    let made = record e {
      states = insert state d e.states;
      events = register_event (codes "onInit") state (codes "onInit") e.events;
    } in
    let called = push_call state (codes "onInit") [] (codes "onInit") d made in
    if has_state state e
    then (none, e)
    else if dont_call_on_init
    then (none, made)
    else (some called.0, called.1)

-- The inner loop of `TriggerEvent`: the handlers of one state.
unfoldable pub trigger_in :
    Bytes → Bytes → List TLuaValue → List Bytes → Engine → Option (List ℕ × Engine)
trigger_in event state args [] e = some ([], e)
trigger_in event state args (f ∷ fs) e = do
  (h, e) ← enqueue_function_call state f args event e
  (hs, e) ← trigger_in event state args fs e
  some (h ∷ hs, e)

unfoldable pub trigger_states :
    Bytes → Bytes → List TLuaValue → Handlers → Engine → Option (List ℕ × Engine)
trigger_states event ignore args [] e = some ([], e)
trigger_states event ignore args ((state, fs) ∷ handlers) e = do
  (hs, e) ← if list_beq state ignore then some ([], e) else trigger_in event state args fs e
  (gs, e) ← trigger_states event ignore args handlers e
  some (hs ++ gs, e)

-- `TriggerEvent` of include/TLuaEngine.h: the handles of the results.
unfoldable pub trigger_event : Bytes → Bytes → List TLuaValue → Engine → Option (List ℕ × Engine)
trigger_event event ignore args e = elim (lookup event e.events) [
  | none ↦ some ([], e)
  | some handlers ↦ trigger_states event ignore args handlers e
]

unfoldable pub trigger_local_event :
    Bytes → Bytes → List TLuaValue → Engine → Option (List ℕ × Engine)
trigger_local_event state event args e = elim (lookup event e.events) [
  | none ↦ some ([], e)
  | some handlers ↦
      let found = get_event_handlers_for_state event state e.events in
      trigger_in event state args found.0 (record e { events = found.1 })
]

-- `ReportErrors` and `AddResultToCheck`.
unfoldable pub report_errors : List ℕ → Engine → Engine
report_errors hs e = record e { results_to_check = e.results_to_check ++ hs }

unfoldable pub create_event_timer : ℕ → Bytes → Bytes → ℕ → CallStrategy → Engine → Engine
create_event_timer now event state interval_ms strategy e = record e {
  timed_events =
      e.timed_events
      ++ record {
        duration = 1000000 * interval_ms;
        last_completion = now;
        event_name = event;
        state_id = state;
        strategy = strategy;
      }
        ∷ [];
}

abbrev pub is_timer_of : Bytes → Bytes → TimedEvent → Bool
is_timer_of event state t = list_beq t.event_name event && list_beq t.state_id state

-- `find_if` and `erase`: the list without the first match, if there is one.
unfoldable pub erase_first : (TimedEvent → Bool) → List TimedEvent → Option (List TimedEvent)
erase_first p [] = none
erase_first p (t ∷ ts) =
    let rest = erase_first p ts in
    if p t then some ts else elim rest [ none ↦ none | some us ↦ some (t ∷ us) ]

-- The loop of `CancelEventTimers`, on fuel; `none` is a loop that is not done.
unfoldable pub cancel_loop : ℕ → (TimedEvent → Bool) → List TimedEvent → Option (List TimedEvent)
cancel_loop zero p ts = none
cancel_loop (suc fuel) p ts = elim (erase_first p ts) [
  | none ↦ some ts
  | some us ↦ cancel_loop fuel p us
]

unfoldable pub cancel_event_timers : Bytes → Bytes → Engine → Option Engine
cancel_event_timers event state e = do
  ts ← cancel_loop (suc (length e.timed_events)) (is_timer_of event state) e.timed_events
  some (record e { timed_events = ts })
