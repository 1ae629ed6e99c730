-- ===== src/Lua/Loops/Handlers.antt =====
-- The loop over the handlers of a timer's event, handler by handler.
use beam_mp_server.Base.{
  ◌≡◌, refl, ap, ◌∙◌, true, false, ◌&&◌, List, [], ◌∷◌, ◌++◌, none, some, arith, if◌then◌else◌,
  length, is_empty, append-nil, list_beq, list_beq_iff, list_eq,
}
use beam_mp_server.Base.Dict.{lookup, lookup-insert}
use beam_mp_server.Base.Text.{Bytes}
use beam_mp_server.Lua.Engine.{
  QueuedFunction, TimedEvent, StateData, Engine, CallStrategy, best_effort, precise, push_call,
  enqueue_from_custom_event, has_event, is_best_effort, report_errors, has_state,
}
use beam_mp_server.Lua.Engine.Triggers.{found-some}
use beam_mp_server.Lua.Engine.Queues.{calls_to, queued, Queues, Queues-trans, push_call-Queues}
use beam_mp_server.Lua.Loops.{after_try, fire_handlers}

enqueue_from_custom_event-accepted :
    (f event state : Bytes) (strategy : CallStrategy) (d : StateData) (e : Engine)
    → (is_best_effort strategy && has_event event d.function_queue) ≡ false
    → enqueue_from_custom_event state f [] event strategy d e
      ≡ (some (push_call state f [] event d e).0, (push_call state f [] event d e).1)
unfolding enqueue_from_custom_event
enqueue_from_custom_event-accepted f event state strategy d e h = ground (arith, h)

enqueue_from_custom_event-refused :
    (f event state : Bytes) (d : StateData) (e : Engine)
    → has_event event d.function_queue ≡ true
    → enqueue_from_custom_event state f [] event best_effort d e ≡ (none, e)
unfolding enqueue_from_custom_event
enqueue_from_custom_event-refused f event state d e h = ground (arith, h)

module _ (t : TimedEvent) where
  abbrev pub accepted : Bytes → StateData → Engine → Engine
  accepted f d e =
      report_errors ((push_call t.state_id f [] t.event_name d e).0 ∷ [])
        (push_call t.state_id f [] t.event_name d e).1

  fire_handlers-accepted :
      (f : Bytes) (fs : List Bytes) (d : StateData) (e : Engine)
      → lookup t.state_id e.states ≡ some d
      → (is_best_effort t.strategy && has_event t.event_name d.function_queue) ≡ false
      → fire_handlers t (f ∷ fs) e ≡ fire_handlers t fs (accepted f d e)
  unfolding fire_handlers
  fire_handlers-accepted f fs d e h k =
      rw (h, fire_handlers)
        (ap (λ r. after_try r (fire_handlers t fs))
          (enqueue_from_custom_event-accepted f t.event_name t.state_id t.strategy d e k))

  pub accepted-Queues :
      (f : Bytes) (d : StateData) (e : Engine)
      → lookup t.state_id e.states ≡ some d
      → Queues
          (λ s. if list_beq t.state_id s then (f, [], t.event_name) ∷ [] else [])
          e
          (accepted f d e)
  unfolding report_errors has_state
  accepted-Queues f d e h = push_call-Queues t.state_id f t.event_name [] d e h

  -- Every handler is queued by the strategy `Precise`.
  pub fire_handlers-precise :
      (fs : List Bytes) (e : Engine)
      → t.strategy ≡ precise
      → has_state t.state_id e ≡ true
      → (u : Engine) × (fire_handlers t fs e ≡ some (true, u))
        × Queues (λ s. if list_beq t.state_id s then calls_to t.event_name [] fs else []) e u
  unfolding fire_handlers has_state
  fire_handlers-precise [] e p h =
      (e, refl, (refl, (λ s. refl), (λ s. ground (arith, append-nil (queued s e)))))
  fire_handlers-precise (f ∷ fs) e p h =
      let (d, found) = found-some (lookup t.state_id e.states) h in
      let q = accepted-Queues f d e found in
      let (u, r, q') = fire_handlers-precise fs (accepted f d e) p (q.1 t.state_id ∙ h) in
      (
        u,
        fire_handlers-accepted f fs d e found (ground (arith, p)) ∙ r,
        Queues-trans _ _ _ e (accepted f d e) u (λ s. ground arith) q q',
      )

  accepted-has_event :
      (f : Bytes) (d : StateData) (e : Engine)
      → lookup t.state_id e.states ≡ some d
      → (d' : StateData) × (lookup t.state_id (accepted f d e).states ≡ some d')
        × (has_event t.event_name d'.function_queue ≡ true)
  unfolding report_errors push_call
  accepted-has_event f d e h = (
    record d { function_queue = d.function_queue ++ q ∷ [] },
    ground (
      arith,
      list_beq_iff t.state_id t.state_id,
      lookup-insert t.state_id t.state_id (record d { function_queue = d.function_queue ++ q ∷ [] })
          e.states,
    ),
    last_has d.function_queue,
  )
    where
      q : QueuedFunction
      q = record {
        function_name = f;
        result = length e.results;
        args = [];
        event_name = t.event_name;
      }

      last_has : (qs : List QueuedFunction) → has_event t.event_name (qs ++ q ∷ []) ≡ true
      last_has [] = ground (arith, list_beq_iff t.event_name t.event_name)
      last_has (p ∷ qs) = ground (arith, last_has qs)

  pub fire_handlers-refused :
      (f : Bytes) (fs : List Bytes) (d : StateData) (e : Engine)
      → t.strategy ≡ best_effort
      → lookup t.state_id e.states ≡ some d
      → has_event t.event_name d.function_queue ≡ true
      → fire_handlers t (f ∷ fs) e ≡ some (false, e)
  unfolding fire_handlers
  fire_handlers-refused f fs d e p h k =
      rw (h, p, fire_handlers)
        (ap (λ r. after_try r (fire_handlers t fs))
          (enqueue_from_custom_event-refused f t.event_name t.state_id d e k))

  -- By `BestEffort` the second handler always meets the call of the first.
  pub fire_handlers-first :
      (f : Bytes) (fs : List Bytes) (d : StateData) (e : Engine)
      → t.strategy ≡ best_effort
      → lookup t.state_id e.states ≡ some d
      → has_event t.event_name d.function_queue ≡ false
      → fire_handlers t (f ∷ fs) e ≡ some (is_empty fs, accepted f d e)
  unfolding fire_handlers
  fire_handlers-first f [] d e p h k = fire_handlers-accepted f [] d e h (ground (arith, k))
  fire_handlers-first f (g ∷ gs) d e p h k =
      let (d', r, s) = accepted-has_event f d e h in
      fire_handlers-accepted f (g ∷ gs) d e h (ground (arith, k))
      ∙ fire_handlers-refused g gs d' (accepted f d e) p r s
