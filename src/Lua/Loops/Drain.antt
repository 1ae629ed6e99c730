-- ===== src/Lua/Loops/Drain.antt =====
-- A state's thread works its queue off, and each call leaves a result behind.
use beam_mp_server.Base.{
  ℕ, zero, suc, ◌<◌, ◌≡◌, refl, sym, ap, ◌∙◌, subst, Bool, true, false, ◌&&◌, List, [], ◌∷◌, Option,
  none, some, arith, if◌then◌else◌, length, list_beq, list_beq_iff, list_eq, All, Bool-cases, inl,
  inr,
}
use beam_mp_server.Base.Dict.{lookup, lookup-insert}
use beam_mp_server.Base.Text.{Bytes}
use beam_mp_server.Lua.Values.{Floating}
use beam_mp_server.Lua.Freeze.{Frozen, froze, failed, freeze}
use beam_mp_server.Lua.Results.{
  CallResult, Returned, valid, invalid, mark_ready_success, mark_ready_error, mark_ready_invalid,
  frozen_into,
}
use beam_mp_server.Lua.Engine.{QueuedFunction, StateData, Engine}
use beam_mp_server.Lua.Loops.{
  Lua, update_at, is_ready, or_unserialized, finish_call, run_call, function_round, function_rounds,
}

or_unserialized-ready :
    (f : Frozen _) (r : CallResult) → (or_unserialized (frozen_into f r)).ready ≡ true
unfolding mark_ready_error
or_unserialized-ready (froze v) r = refl
or_unserialized-ready (failed e) r = refl

finish_call-ready :
    (p : Floating) (o : Option Returned) (r : CallResult) → (finish_call p o r).ready ≡ true
unfolding finish_call mark_ready_error mark_ready_invalid mark_ready_success
finish_call-ready p none r = refl
finish_call-ready p (some (valid o)) r = or_unserialized-ready (freeze p 0 o) r
finish_call-ready p (some (invalid what)) r = refl

module _ (f : CallResult → CallResult) (g : (r : CallResult) → (f r).ready ≡ true) where
  is_ready-update_self :
      (h : ℕ) (rs : List CallResult) → h < length rs → is_ready (update_at h f rs) h ≡ true
  is_ready-update_self h [] b = absurd (omega arith)
  is_ready-update_self zero (r ∷ rs) b = g r
  is_ready-update_self (suc h) (r ∷ rs) b = is_ready-update_self h rs (omega arith)

  is_ready-update_at :
      (h k : ℕ) (rs : List CallResult) → is_ready rs k ≡ true → is_ready (update_at h f rs) k ≡ true
  is_ready-update_at h k [] e = e
  is_ready-update_at zero zero (r ∷ rs) e = g r
  is_ready-update_at zero (suc k) (r ∷ rs) e = e
  is_ready-update_at (suc h) zero (r ∷ rs) e = e
  is_ready-update_at (suc h) (suc k) (r ∷ rs) e = is_ready-update_at h k rs e

length-update_at :
    (h : ℕ) (f : CallResult → CallResult) (rs : List CallResult)
    → length (update_at h f rs) ≡ length rs
length-update_at h f [] = refl
length-update_at zero f (r ∷ rs) = refl
length-update_at (suc h) f (r ∷ rs) = ap suc (length-update_at h f rs)

-- The results that were ready are ready still, and the other states are as they were.
abbrev pub Later : Bytes → Engine → Engine → Type 0
Later state e u =
    ((h : ℕ) → is_ready e.results h ≡ true → is_ready u.results h ≡ true)
    × ((s : Bytes) → list_beq state s ≡ false → lookup s u.states ≡ lookup s e.states)

abbrev with_queue : StateData → List QueuedFunction → StateData
with_queue d qs = record d { function_queue = qs }

function_round-call :
    (lua : Lua) (state : Bytes) (d : StateData) (e : Engine) (q : QueuedFunction)
    (qs : List QueuedFunction)
    → lookup state e.states ≡ some (with_queue d (q ∷ qs))
    → function_round lua state e ≡ run_call lua state q qs (with_queue d (q ∷ qs)) e
unfolding function_round
function_round-call lua state d e q qs h = rw (h, function_round) refl

module _ (lua : Lua) (state : Bytes) (d : StateData) (e : Engine) (q : QueuedFunction)
    (qs : List QueuedFunction) where
  abbrev after : Engine
  after = run_call lua state q qs (with_queue d (q ∷ qs)) e

  run_call-queue : lookup state after.states ≡ some (with_queue d qs)
  unfolding run_call
  run_call-queue =
      ground (arith, lookup-insert state state (with_queue d qs) e.states, list_beq_iff state state)

  run_call-ready : q.result < length e.results → is_ready after.results q.result ≡ true
  unfolding run_call
  run_call-ready b =
      is_ready-update_self _ (λ r. finish_call-ready lua.floating _ _) q.result e.results b

  run_call-length : length after.results ≡ length e.results
  unfolding run_call
  run_call-length = length-update_at q.result _ e.results

  run_call-Later : Later state e after
  unfolding run_call
  run_call-Later = (
    (λ h p. is_ready-update_at _ (λ r. finish_call-ready lua.floating _ _) q.result h e.results p),
    (λ s o. ground (arith, o, lookup-insert state s (with_queue d qs) e.states)),
  )

abbrev Worked : Lua → Bytes → List QueuedFunction → StateData → Engine → Engine → Type 0
Worked lua state qs d e u =
    (lookup state u.states ≡ some (with_queue d []))
    × All (λ q. is_ready u.results q.result ≡ true) qs
    × Later state e u

in_range :
    (n m : ℕ) (qs : List QueuedFunction)
    → m ≡ n
    → All (λ q. q.result < n) qs
    → All (λ q. q.result < m) qs
in_range n m [] p a = tt
in_range n m (q ∷ qs) p a = (omega arith, in_range n m qs p a.1)

rounds_lem :
    (lua : Lua) (state : Bytes) (qs : List QueuedFunction) (d : StateData) (e : Engine)
    → lookup state e.states ≡ some (with_queue d qs)
    → All (λ q. q.result < length e.results) qs
    → Worked lua state qs d e (function_rounds (length qs) lua state e)
unfolding function_rounds
rounds_lem lua state [] d e h b = (h, tt, ((λ k p. p), (λ s o. refl)))
rounds_lem lua state (q ∷ qs) d e h b =
    subst (λ v. Worked lua state (q ∷ qs) d e (function_rounds (length qs) lua state v))
      (sym (function_round-call lua state d e q qs h))
      (let u = after lua state d e q qs in
        let (p, r, (l, o)) =
          rounds_lem lua state qs d u (run_call-queue lua state d e q qs)
            (in_range _ _ qs (run_call-length lua state d e q qs) b.1) in
        let (l', o') = run_call-Later lua state d e q qs in
        (
          p,
          (l q.result (run_call-ready lua state d e q qs b.0), r),
          ((λ k y. l k (l' k y)), (λ s y. o s y ∙ o' s y)),
        ))

-- No call waits in the state, the results of these calls are ready, each result that was ready is
-- so still, and the other states are as before.
abbrev pub Drained : Bytes → List QueuedFunction → StateData → Engine → Engine → Type 0
Drained state qs d e u =
    All (λ q. is_ready u.results q.result ≡ true) qs
    × ((h : ℕ) → (is_ready e.results h && is_ready u.results h) ≡ is_ready e.results h)
    × ((s : Bytes)
        → lookup s u.states
          ≡ (if list_beq state s then some (with_queue d []) else lookup s e.states))

-- Once a state's thread has had as many rounds as calls wait there, and no others are queued
-- meanwhile: its queue is empty; the result of each of these calls is ready, also where the name is
-- no function, the function failed, or what it returned cannot be copied; results that were ready
-- are ready still, and the other states have the calls that they had.
pub function_rounds-drain :
    (lua : Lua) (state : Bytes) (qs : List QueuedFunction) (d : StateData) (e : Engine)
    → lookup state e.states ≡ some (with_queue d qs)
    → All (λ q. q.result < length e.results) qs
    → Drained state qs d e (function_rounds (length qs) lua state e)
function_rounds-drain lua state qs d e h b =
    let (p, r, (l, o)) = rounds_lem lua state qs d e h b in
    (r, (λ k. stays (is_ready e.results k) _ (l k)), (λ s. elsewhere s p (o s)))
  where
    stays : (a c : Bool) → (a ≡ true → c ≡ true) → (a && c) ≡ a
    stays a c g = ground (arith, g)

    elsewhere :
        (s : Bytes)
        → lookup state (function_rounds (length qs) lua state e).states ≡ some (with_queue d [])
        → (list_beq state s ≡ false
            → lookup s (function_rounds (length qs) lua state e).states ≡ lookup s e.states)
        → lookup s (function_rounds (length qs) lua state e).states
          ≡ (if list_beq state s then some (with_queue d []) else lookup s e.states)
    elsewhere s p o = elim (Bool-cases (list_beq state s)) [
      | inl same ↦ rw (same, ← (list_beq_iff state s).0 same) p
      | inr other ↦ rw other (o other)
    ]
