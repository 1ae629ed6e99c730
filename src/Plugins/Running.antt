-- ===== src/Plugins/Running.antt =====
-- The queueing of a plugin's scripts, and the rounds in which they are run.
use beam_mp_server.Base.{
  ◌≡◌, refl, sym, ap, ◌∙◌, true, false, is_empty, List, [], ◌∷◌, ◌++◌, Option, none, some, arith,
  if◌then◌else◌, length, append-nil, append_assoc, list_beq, list_beq_iff, Bool-cases, inl, inr,
  subst,
}
use beam_mp_server.App.{text_eq}
use beam_mp_server.Base.Dict.{lookup, insert, lookup-insert}
use beam_mp_server.Base.Text.{Bytes}
use beam_mp_server.Lua.Engine.{has_state}
use beam_mp_server.Plugins.Order.{sort_paths}
use beam_mp_server.Plugins.{
  PluginFile, PluginFolder, PluginConfig, no_config, broken_config, without_id, with_id, Chunk,
  QueuedScript, Package, Loader, or_nothing, scripts_of, find_and_parse_config, push_script,
  enqueue_script, add_paths, load_file, load_files, scripts_in, run_script, script_round,
  script_rounds, new_plugin,
}

-- The scripts that are run for a plugin's files.
abbrev pub chunks_of : Bytes → List PluginFile → List Chunk
chunks_of folder [] = []
chunks_of folder (f ∷ fs) = elim f.contents [
  | none ↦ chunks_of folder fs
  | some c ↦ record { content = c; file_name = f.path; plugin_path = folder } ∷ chunks_of folder fs
]

abbrev pub in_state : Bytes → List Chunk → List (Bytes × Chunk)
in_state state [] = []
in_state state (c ∷ cs) = (state, c) ∷ in_state state cs

-- The state that a plugin asks for; an empty id asks for none.
abbrev pub wanted : PluginConfig → Bytes → Bytes
wanted (with_id (b ∷ id)) stem = b ∷ id
wanted _ stem = stem

abbrev pub state_of : PluginFolder → Bytes
state_of e = wanted e.config e.stem

pub find_and_parse_config_lem :
    (p : PluginConfig) (stem : Bytes) → find_and_parse_config p stem ≡ wanted p stem
unfolding find_and_parse_config
find_and_parse_config_lem no_config stem = refl
find_and_parse_config_lem broken_config stem = refl
find_and_parse_config_lem without_id stem = refl
find_and_parse_config_lem (with_id []) stem = refl
find_and_parse_config_lem (with_id (b ∷ id)) stem = refl

abbrev pub planned : List PluginFolder → List (Bytes × Chunk)
planned [] = []
planned (e ∷ es) =
    in_state (state_of e) (chunks_of e.relative (sort_paths (λ f. f.path) (scripts_in e.files)))
    ++ planned es

abbrev chunks : List QueuedScript → List Chunk
chunks [] = []
chunks (q ∷ qs) = q.chunk ∷ chunks qs

chunks-append :
    (qs : List QueuedScript) (q : QueuedScript) → chunks (qs ++ q ∷ []) ≡ chunks qs ++ q.chunk ∷ []
chunks-append [] q = refl
chunks-append (p ∷ qs) q = ap (◌∷◌ p.chunk) (chunks-append qs q)

in_state-append :
    (s : Bytes) (a b : List Chunk) → in_state s (a ++ b) ≡ in_state s a ++ in_state s b
in_state-append s [] b = refl
in_state-append s (c ∷ a) b = ap (◌∷◌ (s, c)) (in_state-append s a b)

scripts_of-insert :
    (state j : Bytes) (qs : List QueuedScript) (m : List (Bytes × List QueuedScript))
    → or_nothing (lookup j (insert state qs m))
      ≡ (if list_beq state j then qs else or_nothing (lookup j m))
scripts_of-insert state j qs m = rw (lookup-insert state j qs m) (ground arith)

module _ {ℓ} {L : Type ℓ} where
  -- Scripts were put behind those of one state; the rest stayed as it was.
  abbrev Queued : Bytes → List Chunk → Loader L → Loader L → Type 0
  Queued state cs a b =
      (b.ran ≡ a.ran)
      × (b.engine ≡ a.engine)
      × (chunks (scripts_of state b) ≡ chunks (scripts_of state a) ++ cs)
      × ((j : Bytes) → list_beq state j ≡ false → scripts_of j b ≡ scripts_of j a)

  push_script-Queued :
      (state : Bytes) (c : Chunk) (a : Loader L) → Queued state (c ∷ []) a (push_script state c a)
  unfolding push_script
  push_script-Queued state c a =
      let q : QueuedScript = record { chunk = c; result = length a.script_results } in
      let qs = scripts_of state a ++ q ∷ [] in
      (
        refl,
        refl,
        ap chunks (scripts_of-insert state state qs a.execute_queues)
            ∙ rw ((list_beq_iff state state).1 refl) (chunks-append (scripts_of state a) q),
        λ j n. scripts_of-insert state j qs a.execute_queues ∙ rw n refl,
      )

  Queued-trans :
      (state : Bytes) (cs ds : List Chunk) (a b c : Loader L)
      → Queued state cs a b
      → Queued state ds b c
      → Queued state (cs ++ ds) a c
  Queued-trans state cs ds a b c (r, e, q, o) (r', e', q', o') = (
    r' ∙ r,
    e' ∙ e,
    q' ∙ ap (λ x. x ++ ds) q ∙ append_assoc (chunks (scripts_of state a)) cs ds,
    λ j n. o' j n ∙ o j n,
  )

  load_files-file :
      (state folder : Bytes) (f : PluginFile) (fs : List PluginFile) (a : Loader L)
      (o : Option Bytes)
      → f.contents ≡ o
      → has_state state a.engine ≡ true
      → ((b : Loader L)
          → has_state state b.engine ≡ true
          → Queued state (chunks_of folder fs) b (load_files state folder fs b))
      → Queued state (chunks_of folder (f ∷ fs)) a (load_files state folder (f ∷ fs) a)
  unfolding load_files load_file enqueue_script
  load_files-file state folder f fs a none e h k = rw e (k a h)
  load_files-file state folder f fs a (some t) e h k =
      let c : Chunk = record { content = t; file_name = f.path; plugin_path = folder } in
      let b = push_script state c a in
      let first = push_script-Queued state c a in
      let read : load_file state folder f a ≡ b = rw (e, load_file, enqueue_script, h) refl in
      let here : chunks_of folder (f ∷ fs) ≡ c ∷ chunks_of folder fs = rw e refl in
      subst (λ cs. Queued state cs a (load_files state folder (f ∷ fs) a)) (sym here)
        (subst (λ x. Queued state (c ∷ chunks_of folder fs) a (load_files state folder fs x))
          (sym read)
          (Queued-trans state (c ∷ []) (chunks_of folder fs) a b (load_files state folder fs b)
            first (k b (ap (has_state state) first.1 ∙ h))))

  load_files-Queued :
      (state folder : Bytes) (fs : List PluginFile) (a : Loader L)
      → has_state state a.engine ≡ true
      → Queued state (chunks_of folder fs) a (load_files state folder fs a)
  unfolding load_files
  load_files-Queued state folder [] a h =
      (refl, refl, sym (append-nil (chunks (scripts_of state a))), λ j n. refl)
  load_files-Queued state folder (f ∷ fs) a h =
      load_files-file state folder f fs a f.contents refl h (load_files-Queued state folder fs)

abbrev pub Idle {ℓ} : {L : Type ℓ} → Loader L → Type 0
Idle ld = (j : Bytes) → scripts_of j ld ≡ []

module _ {ℓ} {L : Type ℓ} (run : Bytes → Package → Chunk → L → L × Option Bytes) where
  -- The scripts of one state were run and no others, and none of its own are left.
  abbrev Ran : Bytes → List Chunk → Loader L → Loader L → Type 0
  Ran state cs a b =
      (b.ran ≡ a.ran ++ in_state state cs)
      × (b.engine ≡ a.engine)
      × (scripts_of state b ≡ [])
      × ((j : Bytes) → list_beq state j ≡ false → scripts_of j b ≡ scripts_of j a)

  add_paths-queues :
      (state : Bytes) (a : Loader L)
      → ((add_paths state a).execute_queues ≡ a.execute_queues)
        × ((add_paths state a).engine ≡ a.engine)
        × ((add_paths state a).ran ≡ a.ran)
  unfolding add_paths
  add_paths-queues state a = elim (Bool-cases (is_empty (or_nothing (lookup state a.paths)))) [
    | inl t ↦ rw t (refl, refl, refl)
    | inr n ↦ rw n (refl, refl, refl)
  ]

  run_script-Ran :
      (state : Bytes) (q : QueuedScript) (qs : List QueuedScript) (a : Loader L)
      → ((run_script run state q qs a).ran ≡ a.ran ++ (state, q.chunk) ∷ [])
        × ((run_script run state q qs a).engine ≡ a.engine)
        × (scripts_of state (run_script run state q qs a) ≡ qs)
        × ((j : Bytes)
            → list_beq state j ≡ false
            → scripts_of j (run_script run state q qs a) ≡ scripts_of j a)
  unfolding run_script
  run_script-Ran state q qs a =
      let (queues, engine, ran) = add_paths-queues state a in
      (
        ap (λ l. l ++ (state, q.chunk) ∷ []) ran,
        engine,
        scripts_of-insert state state qs (add_paths state a).execute_queues
            ∙ rw ((list_beq_iff state state).1 refl) refl,
        λ j n.
            scripts_of-insert state j qs (add_paths state a).execute_queues
            ∙ rw n (ap (λ m. or_nothing (lookup j m)) queues),
      )

  script_rounds-Ran :
      (state : Bytes) (qs : List QueuedScript) (a : Loader L)
      → scripts_of state a ≡ qs
      → Ran state (chunks qs) a (script_rounds run (length qs) state a)
  unfolding script_rounds script_round
  script_rounds-Ran state [] a h = (sym (append-nil a.ran), refl, h, λ j n. refl)
  script_rounds-Ran state (q ∷ qs) a h =
      let b = run_script run state q qs a in
      let round : script_round run state a ≡ b = rw (script_round, h) refl in
      let (ran, engine, left, others) = run_script-Ran state q qs a in
      let (ran', engine', left', others') = script_rounds-Ran state qs b left in
      subst (λ x. Ran state (chunks (q ∷ qs)) a (script_rounds run (length qs) state x)) (sym round)
        (
          ran'
              ∙ ap (λ l. l ++ in_state state (chunks qs)) ran
              ∙ append_assoc a.ran ((state, q.chunk) ∷ []) (in_state state (chunks qs)),
          engine' ∙ engine,
          left',
          λ j n. others' j n ∙ others j n,
        )

  -- The making of a plugin, where no scripts wait.
  pub new_plugin-Ran :
      (e : PluginFolder) (state : Bytes) (a : Loader L)
      → has_state state a.engine ≡ true
      → Idle a
      → Ran state
          (chunks_of e.relative (sort_paths (λ f. f.path) (scripts_in e.files)))
          a
          (new_plugin run e state a).1
  unfolding new_plugin
  new_plugin-Ran e state a h idle =
      let files = sort_paths (λ f. f.path) (scripts_in e.files) in
      let b = load_files state e.relative files a in
      let (ran, engine, queued, others) = load_files-Queued state e.relative files a h in
      let (ran', engine', left, others') = script_rounds-Ran state (scripts_of state b) b refl in
      (
        ran'
            ∙ ap (λ l. l ++ in_state state (chunks (scripts_of state b))) ran
            ∙ ap (λ cs. a.ran ++ in_state state cs)
                (queued ∙ ap (λ qs. chunks qs ++ chunks_of e.relative files) (idle state)),
        engine' ∙ engine,
        left,
        λ j n. others' j n ∙ others j n,
      )

  pub Ran-Idle :
      (state : Bytes) (cs : List Chunk) (a b : Loader L) → Ran state cs a b → Idle a → Idle b
  Ran-Idle state cs a b (ran, engine, left, others) idle j = elim (Bool-cases (list_beq state j)) [
    | inl t ↦ subst (λ i. scripts_of i b ≡ []) ((list_beq_iff state j).0 t) left
    | inr n ↦ others j n ∙ idle j
  ]
