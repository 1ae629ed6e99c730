-- ===== src/Lua/Registry/Refines.antt =====
-- The registry against its abstract view: a set of function names for each event and state.
use beam_mp_server.Base.{
  ◌≡◌, refl, ◌∙◌, ap, true, false, ◌&&◌, ◌||◌, List, [], ◌∷◌, arith, if◌then◌else◌, any_of, All,
  list_beq, list_beq_iff, list_eq,
}
use beam_mp_server.Base.Dict.{lookup, insert, lookup-insert}
use beam_mp_server.Base.Text.{Bytes}
use beam_mp_server.Lua.Registry.{
  Registry, before, set_insert, or_empty, register_event, get_event_handlers_for_state,
}

-- What the engine promises: for every event and state a set of functions, none at first.
abbrev pub View : Type 0
View = Bytes → Bytes → List Bytes

pub data Op : Type 0 where
  register : Bytes → Bytes → Bytes → Op
  handlers : Bytes → Bytes → Op

abbrev pub add : Bytes → Bytes → Bytes → View → View
add event state function v e s =
    if list_beq event e && list_beq state s then set_insert function (v e s) else v e s

-- The answers of a sequence of calls, by the view and by the code.
unfoldable pub answers : List Op → View → List (List Bytes)
answers [] v = []
answers (register e s f ∷ ops) v = answers ops (add e s f v)
answers (handlers e s ∷ ops) v = v e s ∷ answers ops v

unfoldable pub run : List Op → Registry → List (List Bytes)
run [] r = []
run (register e s f ∷ ops) r = run ops (register_event e s f r)
run (handlers e s ∷ ops) r =
    (get_event_handlers_for_state e s r).0 ∷ run ops (get_event_handlers_for_state e s r).1

abbrev pub view : Registry → View
view r e s = or_empty (lookup s (or_empty (lookup e r)))

pub view-register_event :
    (event state function : Bytes) (r : Registry) (e s : Bytes)
    → view (register_event event state function r) e s ≡ add event state function (view r) e s
unfolding register_event
view-register_event event state function r e s = ground (
  arith,
  lookup-insert event e
      (insert state (set_insert function (or_empty (lookup state (or_empty (lookup event r)))))
        (or_empty (lookup event r)))
      r,
  lookup-insert state s (set_insert function (or_empty (lookup state (or_empty (lookup event r)))))
      (or_empty (lookup event r)),
  list_beq_iff event e,
  list_beq_iff state s,
)

pub view-get_event_handlers_for_state :
    (event state : Bytes) (r : Registry) (e s : Bytes)
    → view (get_event_handlers_for_state event state r).1 e s ≡ view r e s
unfolding get_event_handlers_for_state
view-get_event_handlers_for_state event state r e s = ground (
  arith,
  lookup-insert event e
      (insert state (or_empty (lookup state (or_empty (lookup event r))))
        (or_empty (lookup event r)))
      r,
  lookup-insert state s (or_empty (lookup state (or_empty (lookup event r))))
      (or_empty (lookup event r)),
  list_beq_iff event e,
  list_beq_iff state s,
)

-- Whatever sequence of registrations and queries is made of a registry, the answers are those of
-- a plain table with one ordered set of functions for each event and state: asking for the handlers
-- leaves entries behind, but none that an answer shows.
pub run-answers : (ops : List Op) (r : Registry) → run ops r ≡ answers ops (view r)
unfolding run answers get_event_handlers_for_state
run-answers [] r = refl
run-answers (register e s f ∷ ops) r =
    run-answers ops (register_event e s f r)
    ∙ ap (answers ops) (λ i a b. view-register_event e s f r a b i)
run-answers (handlers e s ∷ ops) r = ap (◌∷◌ (view r e s)) (
    run-answers ops (get_event_handlers_for_state e s r).1
    ∙ ap (answers ops) (λ i a b. view-get_event_handlers_for_state e s r a b i))

before_tight : (s t : Bytes) → before s t ≡ false → before t s ≡ false → s ≡ t
unfolding before
before_tight [] [] p q = refl
before_tight [] (b ∷ t) p q = ground arith
before_tight (a ∷ s) [] p q = ground arith
before_tight (a ∷ s) (b ∷ t) p q = ground (arith, before_tight s t)

-- A function is in the set after an insertion exactly if it was inserted or was in it before.
pub any_of-set_insert :
    (f g : Bytes) (fs : List Bytes)
    → any_of (list_beq g) (set_insert f fs) ≡ (list_beq g f || any_of (list_beq g) fs)
unfolding set_insert
any_of-set_insert f g [] = ground arith
any_of-set_insert f g (h ∷ fs) =
    ground (arith, any_of-set_insert f g fs, before_tight f h, list_beq_iff g f, list_beq_iff g h)

before_trans : (s t u : Bytes) → before s t ≡ true → before t u ≡ true → before s u ≡ true
unfolding before
before_trans [] [] u p q = ground arith
before_trans [] (b ∷ t) [] p q = ground arith
before_trans [] (b ∷ t) (c ∷ u) p q = refl
before_trans (a ∷ s) [] u p q = ground arith
before_trans (a ∷ s) (b ∷ t) [] p q = ground arith
before_trans (a ∷ s) (b ∷ t) (c ∷ u) p q = ground (arith, before_trans s t u)

-- Strictly ascending, so that no name stands twice.
abbrev pub Ascending : List Bytes → Type 0
Ascending [] = Unit
Ascending (f ∷ fs) = All (λ g. before f g ≡ true) fs × Ascending fs

set_insert-All :
    (h f : Bytes) (fs : List Bytes)
    → before h f ≡ true
    → All (λ g. before h g ≡ true) fs
    → All (λ g. before h g ≡ true) (set_insert f fs)
unfolding set_insert
set_insert-All h f [] p a = (p, tt)
set_insert-All h f (g ∷ fs) p a = ground (arith, set_insert-All h f fs p a.1)

All-before_trans :
    (f g : Bytes) (fs : List Bytes)
    → before f g ≡ true
    → All (λ h. before g h ≡ true) fs
    → All (λ h. before f h ≡ true) fs
All-before_trans f g [] p a = tt
All-before_trans f g (h ∷ fs) p a = (before_trans f g h p a.0, All-before_trans f g fs p a.1)

pub set_insert-Ascending :
    (f : Bytes) (fs : List Bytes) → Ascending fs → Ascending (set_insert f fs)
unfolding set_insert
set_insert-Ascending f [] a = (tt, tt)
set_insert-Ascending f (g ∷ fs) a =
    ground (arith, set_insert-Ascending f fs a.1, set_insert-All g f fs, All-before_trans f g fs)
