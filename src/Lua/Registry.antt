-- ===== src/Lua/Registry.antt =====
-- `mLuaEvents`: the handlers of each event in each Lua state, as the methods of `TLuaEngine` read
-- and change it under its mutex.
pub mod Refines
use beam_mp_server.Base.{
  Bool, true, false, ◌&&◌, List, [], ◌∷◌, ◌++◌, Option, none, some, ℕ, ◌+◌, ◌-◌, ltb, ◌==◌,
  if◌then◌else◌, length, list_beq, list_eq, map,
}
use beam_mp_server.Base.Dict.{lookup, insert}
use beam_mp_server.Base.Text.{Bytes}

-- `operator<` of `std::string`.
unfoldable pub before : Bytes → Bytes → Bool
before s [] = false
before [] (b ∷ t) = true
before (a ∷ s) (b ∷ t) = if ltb a b then true else if ltb b a then false else before s t

-- `std::set<std::string>::insert`: the set as the list that a pass over it meets.
unfoldable pub set_insert : Bytes → List Bytes → List Bytes
set_insert f [] = f ∷ []
set_insert f (g ∷ gs) =
    if before f g then f ∷ g ∷ gs else if before g f then g ∷ set_insert f gs else g ∷ gs

abbrev pub Handlers : Type 0
Handlers = List (Bytes × List Bytes)

abbrev pub Registry : Type 0
Registry = List (Bytes × Handlers)

-- What `operator[]` finds, or creates empty.
abbrev pub or_empty {ℓ} : {A : Type ℓ} → Option (List A) → List A
or_empty none = []
or_empty (some xs) = xs

unfoldable pub register_event : Bytes → Bytes → Bytes → Registry → Registry
register_event event state function r =
    let handlers = or_empty (lookup event r) in
    insert event (insert state (set_insert function (or_empty (lookup state handlers))) handlers) r

-- The two uses of `operator[]` leave an entry behind where there was none.
unfoldable pub get_event_handlers_for_state : Bytes → Bytes → Registry → List Bytes × Registry
get_event_handlers_for_state event state r =
    let handlers = or_empty (lookup event r) in
    let found = or_empty (lookup state handlers) in
    (found, insert event (insert state found handlers) r)

-- The inner loops of `Debug_GetEventsForState` for one event: its handlers in the state.
unfoldable pub handlers_in : Bytes → Handlers → List Bytes
handlers_in state [] = []
handlers_in state ((s, fs) ∷ handlers) =
    if list_beq s state then fs ++ handlers_in state handlers else handlers_in state handlers

-- `Result[name].push_back(handler)`: an event without a handler there gets no entry.
unfoldable pub debug_get_events_for_state : Bytes → Registry → List (Bytes × List Bytes)
debug_get_events_for_state state [] = []
debug_get_events_for_state state ((event, handlers) ∷ r) =
    let rest = debug_get_events_for_state state r in
    let found = handlers_in state handlers in
    if length found == 0 then rest else (event, found) ∷ rest

unfoldable pub count_handlers : Handlers → ℕ
count_handlers [] = 0
count_handlers ((s, fs) ∷ handlers) = length fs + count_handlers handlers

-- The loops of `GetRegisteredEventHandlerCount`.
unfoldable pub count_all : Registry → ℕ
count_all [] = 0
count_all ((event, handlers) ∷ r) = count_handlers handlers + count_all r
