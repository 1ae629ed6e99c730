-- ===== src/Lua/Tests.antt =====
-- The test cases of src/TLuaResult.cpp, and the theorems on the Lua engine at concrete inputs.
use beam_mp_server.Base.{
  ◌+◌, ◌*◌, ◌/◌, ◌%◌, ◌≡◌, refl, true, false, ◌&&◌, List, [], ◌∷◌, none, some, arith, leb, ◌==◌,
  if◌then◌else◌, list_beq, list_eq, Bool-cases, inl, inr,
}
use beam_mp_server.Base.Dict.{lookup}
use beam_mp_server.Base.Ints.{ℤ, pos, negsuc}
use beam_mp_server.Base.Text.{Bytes, codes}
use beam_mp_server.Lua.Registry.Refines.{Op, register, handlers, run, answers, view, run-answers}
use beam_mp_server.Lua.Values.{
  text_key, number_key, boolean, number, text, table, opaque, LuaObject, no_entries, entry,
  Detached, monostate, bool_of, int_of, string_of, array_of, object_of, no_items, item, no_fields,
  field, Floating,
}
use beam_mp_server.Lua.Freeze.{
  froze, failed, freeze, to_lua, place, is_index, build, fill, blank, set_item, with_index,
  with_text, with_other, has_field, push_field,
}
use beam_mp_server.Lua.Freeze.Bounds.{succeeds, height, is_plain, freeze_iff}
use beam_mp_server.Lua.Freeze.Scans.{Exact, IsFrozen}
use beam_mp_server.Lua.Freeze.RoundTrip.{freeze-to_lua_lem}
use beam_mp_server.Lua.Engine.{
  QueuedFunction, StateData, TimedEvent, Engine, best_effort, has_state,
}
use beam_mp_server.Lua.Engine.Triggers.{IsSound, Triggered, trigger_event_lem}
use beam_mp_server.Lua.Loops.{Lua, function_rounds}
use beam_mp_server.Lua.Loops.Drain.{Drained, function_rounds-drain}
use beam_mp_server.Lua.Loops.Timers.{Fires, fire-strategies}
use beam_mp_server.Lua.Loops.Waiting.{Ended, wait_for_all_ends}

-- Numbers that keep their promises: the even ones for the whole numbers from 0 on.
abbrev numbers : Floating
numbers = record {
  is_finite = λ d. true;
  at_least_one = λ d. (d % 2 == 0) && leb 2 d;
  truncate = λ d. d / 2;
  is_near = λ d n. true;
  as_int = λ d. some (if d % 2 == 0 then pos (d / 2) else negsuc (d / 2));
  push_int = λ z. elim z [ pos n ↦ 2 * n | negsuc n ↦ 2 * n + 1 ];
  push_index = λ i. 2 * i;
}

numbers-ints : (z : ℤ) → numbers.as_int (numbers.push_int z) ≡ some z
numbers-ints (pos n) = ground arith
numbers-ints (negsuc n) = ground arith

numbers-Exact : Exact numbers
unfolding is_index
numbers-Exact = record { ints = numbers-ints; indices = λ i p q. (ground arith, omega arith) }

open_freeze : Unit {0}
unfolding freeze place is_index build fill blank set_item with_index with_text with_other has_field
    push_field
open_freeze = tt

-- An array with a gap, and a table whose number is ignored.
sparse : LuaObject
sparse = table (
    entry (number_key 2) (text (codes "a"))
      (entry (number_key 4) (number 84) (entry (number_key 8) (boolean true) no_entries)))

mixed : LuaObject
mixed =
    table
      (entry (text_key (codes "flag")) (boolean true) (entry (number_key 2) (text []) no_entries))

freeze_tests :
    (freeze numbers 0 sparse
      ≡ froze (
          array_of (
            item
              (string_of (codes "a"))
              (item (int_of (pos 42)) (item monostate (item (bool_of true) no_items))))))
    × (freeze numbers 0 mixed ≡ froze (object_of (field (codes "flag") (bool_of true) no_fields)))
    × (freeze numbers 0 opaque ≡ failed (codes "unsupported Lua type for cross-thread snapshot"))
unfolding open_freeze sparse mixed
freeze_tests = (refl, refl, refl)

freeze_iff_example :
    succeeds (freeze numbers 0 sparse) ≡ (leb (height numbers sparse) 64 && is_plain numbers sparse)
freeze_iff_example = freeze_iff numbers sparse

abbrev frozen : Detached
frozen = array_of (item (int_of (negsuc 0)) (item monostate (item (string_of []) no_items)))

frozen-IsFrozen : IsFrozen numbers 0 frozen
unfolding IsFrozen
frozen-IsFrozen = (omega arith, refl, omega arith, (tt, (tt, (tt, tt))))

freeze-to_lua_lem_example : freeze numbers 0 (to_lua numbers frozen) ≡ froze frozen
freeze-to_lua_lem_example = freeze-to_lua_lem numbers frozen numbers-Exact frozen-IsFrozen

abbrev tick_event : Bytes
tick_event = codes "tick"

abbrev home : Bytes
home = codes "main"

abbrev calls_made : List Op
calls_made =
    handlers tick_event home
    ∷ register tick_event home (codes "g")
    ∷ register tick_event home (codes "f")
    ∷ handlers tick_event home
    ∷ []

run-answers_example : run calls_made [] ≡ answers calls_made (view [])
run-answers_example = run-answers calls_made []

abbrev waiting : QueuedFunction
waiting = record { function_name = codes "late"; result = 0; args = []; event_name = codes "other" }

abbrev idle : StateData
idle = record { name = home; state_id = home; function_queue = waiting ∷ [] }

abbrev timer : TimedEvent
timer = record {
  duration = 1000000;
  last_completion = 0;
  event_name = tick_event;
  state_id = home;
  strategy = best_effort;
}

abbrev engine : Engine
engine = record {
  states = (home, idle) ∷ [];
  events = (tick_event, (home, codes "f" ∷ codes "g" ∷ []) ∷ []) ∷ [];
  timed_events = timer ∷ [];
  results =
      record {
        ready = false;
        error = false;
        error_message = [];
        detached = monostate;
        state_id = home;
        function = codes "late";
      }
      ∷ [];
  results_to_check = [];
}

engine-IsSound : IsSound engine
unfolding lookup has_state
engine-IsSound event = elim (Bool-cases (list_beq tick_event event)) [
  | inl e ↦ rw e ((refl, tt), (refl, tt))
  | inr e ↦ rw e (tt, tt)
]

trigger_event_lem_example : Triggered tick_event [] [] engine
trigger_event_lem_example = trigger_event_lem tick_event [] [] engine engine-IsSound

home_found : lookup home engine.states ≡ some idle
unfolding lookup
home_found = refl

fire-strategies_example : Fires 2000000 timer engine timer (codes "f" ∷ [])
unfolding lookup
fire-strategies_example = fire-strategies 2000000 timer idle engine home_found

wait_for_all_ends_example : Ended 3 25 (λ h t. leb 10 t) 0 (0 ∷ []) engine
wait_for_all_ends_example = wait_for_all_ends 3 25 0 (λ h t. leb 10 t) (0 ∷ []) engine (omega arith)

abbrev no_functions : Lua
no_functions = record { floating = numbers; call = λ e s q. none }

function_rounds-drain_example :
    Drained home (waiting ∷ []) idle engine (function_rounds 1 no_functions home engine)
function_rounds-drain_example =
    function_rounds-drain no_functions home (waiting ∷ []) idle engine home_found (omega arith, tt)
