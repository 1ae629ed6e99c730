-- ===== src/Lua/Engine/Queues.antt =====
-- The calls that wait in each Lua state, and how a queued call adds to them.
use beam_mp_server.Base.{
  ◌≡◌, refl, sym, ap, ◌∙◌, List, [], ◌∷◌, ◌++◌, Option, none, some, arith, if◌then◌else◌, length,
  append-nil, append_assoc, list_beq, list_beq_iff, list_eq,
}
use beam_mp_server.Base.Dict.{lookup, lookup-insert}
use beam_mp_server.Base.Text.{Bytes}
use beam_mp_server.Lua.Engine.{TLuaValue, QueuedFunction, StateData, Engine, push_call, has_state}

-- A call as its handler sees it.
abbrev pub Call : Type 0
Call = Bytes × List TLuaValue × Bytes

abbrev pub call_of : QueuedFunction → Call
call_of q = (q.function_name, q.args, q.event_name)

abbrev pub calls : List QueuedFunction → List Call
calls [] = []
calls (q ∷ qs) = call_of q ∷ calls qs

calls-append : (qs rs : List QueuedFunction) → calls (qs ++ rs) ≡ calls qs ++ calls rs
calls-append [] rs = refl
calls-append (q ∷ qs) rs = ap (◌∷◌ (call_of q)) (calls-append qs rs)

abbrev pub queue_of : Option StateData → List Call
queue_of none = []
queue_of (some d) = calls d.function_queue

-- The calls that wait in a state.
abbrev pub queued : Bytes → Engine → List Call
queued s e = queue_of (lookup s e.states)

abbrev pub calls_to : Bytes → List TLuaValue → List Bytes → List Call
calls_to event args [] = []
calls_to event args (f ∷ fs) = (f, args, event) ∷ calls_to event args fs

-- An engine that has the same states and handlers as before, and some calls more in its queues.
abbrev pub Queues : (Bytes → List Call) → Engine → Engine → Type 0
Queues more e u =
    (u.events ≡ e.events)
    × ((s : Bytes) → has_state s u ≡ has_state s e)
    × ((s : Bytes) → queued s u ≡ queued s e ++ more s)

pub push_call-Queues :
    (state f event : Bytes) (args : List TLuaValue) (d : StateData) (e : Engine)
    → lookup state e.states ≡ some d
    → Queues
        (λ s. if list_beq state s then (f, args, event) ∷ [] else [])
        e
        (push_call state f args event d e).1
unfolding push_call has_state
push_call-Queues state f event args d e h = (refl, (λ s. seen s), (λ s. more s))
  where
    q : QueuedFunction
    q = record { function_name = f; result = length e.results; args = args; event_name = event }

    seen : (s : Bytes) → has_state s (push_call state f args event d e).1 ≡ has_state s e
    seen s = ground (
      arith,
      h,
      list_beq_iff state s,
      lookup-insert state s (record d { function_queue = d.function_queue ++ q ∷ [] }) e.states,
    )

    more :
        (s : Bytes)
        → queued s (push_call state f args event d e).1
          ≡ queued s e ++ (if list_beq state s then (f, args, event) ∷ [] else [])
    more s = ground (
      arith,
      h,
      list_beq_iff state s,
      append-nil (queued s e),
      calls-append d.function_queue (q ∷ []),
      lookup-insert state s (record d { function_queue = d.function_queue ++ q ∷ [] }) e.states,
    )

pub Queues-none : (e : Engine) → Queues (λ s. []) e e
Queues-none e = (refl, (λ s. refl), (λ s. sym (append-nil (queued s e))))

pub Queues-trans :
    (m n k : Bytes → List Call) (e u v : Engine)
    → ((s : Bytes) → m s ++ n s ≡ k s)
    → Queues m e u
    → Queues n u v
    → Queues k e v
Queues-trans m n k e u v g (p, q, r) (p', q', r') = (
  p' ∙ p,
  (λ s. q' s ∙ q s),
  (λ s.
      r' s
      ∙ ap (λ x. x ++ n s) (r s)
      ∙ append_assoc (queued s e) (m s) (n s)
      ∙ ap (λ x. queued s e ++ x) (g s)),
)
