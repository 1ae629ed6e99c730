-- ===== src/Lua/Loops/Waiting.antt =====
-- `WaitForAll` and `CancelEventTimers` come to an end.
use beam_mp_server.Base.{
  ℕ, zero, suc, ◌+◌, ◌*◌, ◌≤◌, ◌<◌, ◌≡◌, refl, Bool, true, false, List, [], ◌∷◌, none, some, arith,
  ltb, if◌then◌else◌, length, Bool-cases, Option-cases, All, Member, here, there, append-nil,
  append_assoc, inl, inr,
}
use beam_mp_server.Base.Text.{Bytes}
use beam_mp_server.Lua.Engine.{
  Engine, TimedEvent, erase_first, cancel_loop, cancel_event_timers, is_timer_of, report_errors,
}
use beam_mp_server.Lua.Loops.{poll, wait_for_all}

abbrev pub without : (TimedEvent → Bool) → List TimedEvent → List TimedEvent
without p [] = []
without p (t ∷ ts) = if p t then without p ts else t ∷ without p ts

module _ (p : TimedEvent → Bool) where
  erase_first-none : (ts : List TimedEvent) → erase_first p ts ≡ none → without p ts ≡ ts
  unfolding erase_first
  erase_first-none [] e = refl
  erase_first-none (t ∷ ts) e = ground (arith, erase_first-none ts)

  erase_first-some :
      (ts us : List TimedEvent)
      → erase_first p ts ≡ some us
      → (without p us ≡ without p ts) × (length ts ≡ suc (length us))
  unfolding erase_first
  erase_first-some [] us e = ground arith
  erase_first-some (t ∷ ts) us e = elim (Option-cases (erase_first p ts)) [
    | inl n ↦ ground (arith, erase_first-none ts n)
    | inr (vs, q) ↦ ground (arith, erase_first-some ts vs q)
  ]

  cancel_loop_lem :
      (fuel : ℕ) (ts : List TimedEvent)
      → length ts < fuel
      → cancel_loop fuel p ts ≡ some (without p ts)
  unfolding cancel_loop
  cancel_loop_lem zero ts h = absurd (omega arith)
  cancel_loop_lem (suc fuel) ts h = elim (Option-cases (erase_first p ts)) [
    | inl n ↦ ground (arith, erase_first-none ts n)
    | inr (us, q) ↦ ground (arith, erase_first-some ts us q, cancel_loop_lem fuel us)
  ]

-- Whatever the timers: the loop ends, the timers of the event in the state are gone, each of them,
-- and all others are left as they were, in their order.
cancel_event_timers_lem :
    (event state : Bytes) (e : Engine)
    → cancel_event_timers event state e
      ≡ some (record e { timed_events = without (is_timer_of event state) e.timed_events })
unfolding cancel_event_timers
cancel_event_timers_lem event state e =
    rw
      (cancel_loop_lem (is_timer_of event state) (suc (length e.timed_events)) e.timed_events
        (omega arith))
      refl

-- A deadline is passed at the latest one poll after it, and only a result that is there or late
-- ends the polling.
poll-within :
    (fuel : ℕ) (ready : ℕ → Bool) (limit ms : ℕ)
    → limit < ms + 10 * fuel
    → ms ≤ limit
    → (c : Bool) × (t : ℕ) × (poll fuel ready (some limit) ms ≡ some (c, t))
      × (t ≤ limit + 10)
      × (if c then limit < t else (ready t ≡ true))
unfolding poll
poll-within zero ready limit ms h k = absurd (omega arith)
poll-within (suc fuel) ready limit ms h k = elim (Bool-cases (ready ms)) [
  | inl found ↦ (false, ms, rw found refl, omega arith, found)
  | inr absent ↦ elim (Bool-cases (ltb limit (ms + 10))) [
    | inl late ↦ (true, ms + 10, rw (absent, late) refl, omega arith, ground arith)
    | inr early ↦
        let (c, t, e, b, r) = poll-within fuel ready limit (ms + 10) (omega arith) (ground arith) in
        (c, t, rw (absent, early) e, b, r)
  ]
]

-- The wait ends at a time, with some of the results reported as late.
abbrev pub Ended : ℕ → ℕ → (ℕ → ℕ → Bool) → ℕ → List ℕ → Engine → Type 0
Ended fuel limit ready start hs e =
    (end : ℕ) × (late : List ℕ) × (wait_for_all fuel ready (some limit) start hs e
      ≡ some (end, report_errors late e))
    × (end ≤ start + length hs * (limit + 10))
    × (start + length late * limit ≤ end)
    × All (λ h. Member h hs) late

weaken :
    (r : ℕ) (hs late : List ℕ) → All (λ h. Member h hs) late → All (λ h. Member h (r ∷ hs)) late
weaken r hs [] a = tt
weaken r hs (h ∷ late) a = (there a.0, weaken r hs late a.1)

module _ (fuel limit start r t : ℕ) (ready : ℕ → ℕ → Bool) (hs : List ℕ) (e : Engine) where
  Ended-found :
      poll fuel (λ t. ready r (start + t)) (some limit) 0 ≡ some (false, t)
      → t ≤ limit + 10
      → Ended fuel limit ready (start + t) hs e
      → Ended fuel limit ready start (r ∷ hs) e
  unfolding wait_for_all
  Ended-found p b (end, late, q, up, low, all) =
      (end, late, rw p q, omega arith, omega arith, weaken r hs late all)

  Ended-late :
      poll fuel (λ t. ready r (start + t)) (some limit) 0 ≡ some (true, t)
      → t ≤ limit + 10
      → limit < t
      → Ended fuel limit ready (start + t) hs (report_errors (r ∷ []) e)
      → Ended fuel limit ready start (r ∷ hs) e
  unfolding wait_for_all report_errors
  Ended-late p b l (end, late, q, up, low, all) = (
    end,
    r ∷ late,
    rw (p, ← append_assoc e.results_to_check (r ∷ []) late) q,
    omega arith,
    omega arith,
    (here refl, weaken r hs late all),
  )

-- With a deadline and fuel for one poll in each 10 ms of it: the wait ends, after no more than the
-- deadline and 10 ms for each result; the results reported to the checking thread are some of those
-- waited for, and nothing else of the engine changes.
pub wait_for_all_ends :
    (fuel limit start : ℕ) (ready : ℕ → ℕ → Bool) (hs : List ℕ) (e : Engine)
    → limit < 10 * fuel
    → Ended fuel limit ready start hs e
unfolding wait_for_all report_errors
wait_for_all_ends fuel limit start ready [] e h =
    (start, [], rw (append-nil e.results_to_check) refl, omega arith, omega arith, tt)
wait_for_all_ends fuel limit start ready (r ∷ hs) e h =
    go (λ s u. wait_for_all_ends fuel limit s ready hs u h)
      (poll-within fuel (λ t. ready r (start + t)) limit 0 (omega arith) (omega arith))
  where
    go :
        ((s : ℕ) (u : Engine) → Ended fuel limit ready s hs u)
        → (c : Bool) × (t : ℕ) × (poll fuel (λ t. ready r (start + t)) (some limit) 0 ≡ some (c, t))
          × (t ≤ limit + 10)
          × (if c then limit < t else (ready r (start + t) ≡ true))
        → Ended fuel limit ready start (r ∷ hs) e
    go ends (true, t, p, b, q) =
        Ended-late fuel limit start r t ready hs e p b q
          (ends (start + t) (report_errors (r ∷ []) e))
    go ends (false, t, p, b, q) =
        Ended-found fuel limit start r t ready hs e p b (ends (start + t) e)
