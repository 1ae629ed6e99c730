-- ===== src/Lua/Engine/Triggers.antt =====
-- What an event queues: one call of each of its handlers, in each state but the one that is left
-- out.
use beam_mp_server.Base.{
  ℕ, ◌≡◌, refl, ap, ◌∙◌, true, List, [], ◌∷◌, ◌++◌, Option, none, some, arith, if◌then◌else◌,
  append-nil, list_beq, list_beq_iff, list_eq, All, Option-cases, Bool-cases, inl, inr,
}
use beam_mp_server.Base.Dict.{lookup, IsDict}
use beam_mp_server.Base.Text.{Bytes}
use beam_mp_server.Lua.Registry.{Handlers, or_empty}
use beam_mp_server.Lua.Engine.{
  TLuaValue, StateData, Engine, push_call, enqueue_function_call, has_state, is_found, trigger_in,
  trigger_states, trigger_event,
}
use beam_mp_server.Lua.Engine.Queues.{
  Call, queued, calls_to, Queues, push_call-Queues, Queues-none, Queues-trans,
}

-- A call that returns handles and queues these calls.
abbrev pub Gives : Option (List ℕ × Engine) → (Bytes → List Call) → Engine → Type 0
Gives run more e = (hs : List ℕ) × (u : Engine) × (run ≡ some (hs, u)) × Queues more e u

enqueue_function_call-some :
    (state f event : Bytes) (args : List TLuaValue) (d : StateData) (e : Engine)
    → lookup state e.states ≡ some d
    → enqueue_function_call state f args event e ≡ some (push_call state f args event d e)
unfolding enqueue_function_call
enqueue_function_call-some state f event args d e h = rw (h, enqueue_function_call) refl

pub found-some : (o : Option StateData) → is_found o ≡ true → (d : StateData) × (o ≡ some d)
found-some none h = absurd (ground arith)
found-some (some d) h = (d, refl)

still :
    (handlers : Handlers) (e u : Engine)
    → ((s : Bytes) → has_state s u ≡ has_state s e)
    → All (λ p. has_state p.0 e ≡ true) handlers
    → All (λ p. has_state p.0 u ≡ true) handlers
still [] e u q h = tt
still (p ∷ handlers) e u q h = (q p.0 ∙ h.0, still handlers e u q h.1)

module _ (event : Bytes) (args : List TLuaValue) where
  enqueue_function_call_lem :
      (state f : Bytes) (e : Engine)
      → has_state state e ≡ true
      → (h : ℕ) × (u : Engine) × (enqueue_function_call state f args event e ≡ some (h, u))
        × Queues (λ s. if list_beq state s then (f, args, event) ∷ [] else []) e u
  unfolding has_state
  enqueue_function_call_lem state f e h =
      let (d, p) = found-some (lookup state e.states) h in
      (
        (push_call state f args event d e).0,
        (push_call state f args event d e).1,
        enqueue_function_call-some state f event args d e p,
        push_call-Queues state f event args d e p,
      )

  trigger_in_lem :
      (state : Bytes) (fs : List Bytes) (e : Engine)
      → has_state state e ≡ true
      → Gives
          (trigger_in event state args fs e)
          (λ s. if list_beq state s then calls_to event args fs else [])
          e
  unfolding trigger_in
  trigger_in_lem state [] e h =
      ([], e, refl, (refl, (λ s. refl), (λ s. ground (arith, append-nil (queued s e)))))
  trigger_in_lem state (f ∷ fs) e h =
      let (r, u, p, q) = enqueue_function_call_lem state f e h in
      let (rs, v, p', q') = trigger_in_lem state fs u (q.1 state ∙ h) in
      (r ∷ rs, v, rw p (rw p' refl), Queues-trans _ _ _ e u v (λ s. ground arith) q q')

  -- What `TriggerEvent` queues for a state, by the handlers of the event.
  abbrev pub triggered : Bytes → Handlers → Bytes → List Call
  triggered ignore [] s = []
  triggered ignore ((state, fs) ∷ handlers) s =
      (if list_beq state ignore
        then []
        else if list_beq state s
        then calls_to event args fs
        else [])
      ++ triggered ignore handlers s

  trigger_states_lem :
      (ignore : Bytes) (handlers : Handlers) (e : Engine)
      → All (λ p. has_state p.0 e ≡ true) handlers
      → Gives (trigger_states event ignore args handlers e) (triggered ignore handlers) e
  unfolding trigger_states
  trigger_states_lem ignore [] e h = ([], e, refl, Queues-none e)
  trigger_states_lem ignore ((state, fs) ∷ handlers) e h =
      let (rs, u, p, q) = unless_ignored ignore state fs e h.0 in
      let (rs', v, p', q') =
        trigger_states_lem ignore handlers u (still handlers e u (λ s. q.1 s) h.1) in
      (rs ++ rs', v, rw p (rw p' refl), Queues-trans _ _ _ e u v (λ s. refl) q q')
    where
      unless_ignored :
          (ignore state : Bytes) (fs : List Bytes) (e : Engine)
          → has_state state e ≡ true
          → Gives
              (if list_beq state ignore then some ([], e) else trigger_in event state args fs e)
              (λ s.
                if list_beq state ignore
                then []
                else if list_beq state s
                then calls_to event args fs
                else [])
              e
      unless_ignored ignore state fs e h = elim (Bool-cases (list_beq state ignore)) [
        | inl same ↦ rw same ([], e, refl, Queues-none e)
        | inr other ↦ rw other (trigger_in_lem state fs e h)
      ]

  triggered_at :
      (ignore : Bytes) (handlers : Handlers) (s : Bytes)
      → IsDict handlers
      → triggered ignore handlers s
        ≡ (if list_beq s ignore then [] else calls_to event args (or_empty (lookup s handlers)))
  unfolding lookup
  triggered_at ignore [] s d = ground arith
  triggered_at ignore ((state, fs) ∷ handlers) s d = ground (
    arith,
    triggered_at ignore handlers s d.1,
    d.0,
    list_beq_iff state ignore,
    list_beq_iff s ignore,
    list_beq_iff state s,
    append-nil (calls_to event args fs),
  )

-- The engine's invariant: a state has one set of handlers for an event, and a state with handlers
-- is there.
abbrev pub IsSound : Engine → Type 0
IsSound e =
    (event : Bytes)
    → IsDict (or_empty (lookup event e.events))
      × All (λ p. has_state p.0 e ≡ true) (or_empty (lookup event e.events))

abbrev pub handlers_of : Bytes → Bytes → Engine → List Bytes
handlers_of event s e = or_empty (lookup s (or_empty (lookup event e.events)))

Queues-IsSound : (more : Bytes → List Call) (e u : Engine) → Queues more e u → IsSound e → IsSound u
unfolding has_state
Queues-IsSound more e u (p, q, r) h event =
    rw p ((h event).0, still (or_empty (lookup event e.events)) e u q (h event).1)

trigger_event-states :
    (event ignore : Bytes) (args : List TLuaValue) (e : Engine)
    → trigger_event event ignore args e
      ≡ trigger_states event ignore args (or_empty (lookup event e.events)) e
unfolding trigger_event trigger_states
trigger_event-states event ignore args e = elim (Option-cases (lookup event e.events)) [
  | inl n ↦ rw (n, trigger_event) refl
  | inr (handlers, p) ↦ rw (p, trigger_event) refl
]

-- The event returns handles, and leaves an engine with its calls queued.
abbrev pub Triggered : Bytes → Bytes → List TLuaValue → Engine → Type 0
Triggered event ignore args e =
    (hs : List ℕ) × (u : Engine) × (trigger_event event ignore args e ≡ some (hs, u))
    × ((s : Bytes)
        → queued s u
          ≡ queued s e
            ++ (if list_beq s ignore then [] else calls_to event args (handlers_of event s e)))
    × (u.events ≡ e.events)
    × IsSound u

-- In a sound engine an event never meets a state that is not there: each state other than the one
-- left out gets one call of each of its handlers of that event, with the event's arguments and name,
-- in the order of the names and behind the calls that wait there; all other queues and the
-- handlers stay as they were, and the engine stays sound.
pub trigger_event_lem :
    (event ignore : Bytes) (args : List TLuaValue) (e : Engine)
    → IsSound e
    → Triggered event ignore args e
trigger_event_lem event ignore args e h =
    let handlers = or_empty (lookup event e.events) in
    let (hs, u, p, q) = trigger_states_lem event args ignore handlers e (h event).1 in
    (
      hs,
      u,
      trigger_event-states event ignore args e ∙ p,
      (λ s.
          q.2 s
          ∙ ap (λ x. queued s e ++ x) (triggered_at event args ignore handlers s (h event).0)),
      q.0,
      Queues-IsSound _ e u q h,
    )
