-- ===== src/Plugins/Collected.antt =====
-- What is run, and where, when the plugins are collected.
use beam_mp_server.Base.{
  ◌≡◌, refl, sym, ap, ◌∙◌, true, List, [], ◌∷◌, ◌++◌, Option, arith, if◌then◌else◌, All, append-nil,
  append_assoc, list_beq, list_beq_iff, Bool-cases, inl, inr, subst,
}
use beam_mp_server.App.{text_eq}
use beam_mp_server.Base.Dict.{lookup-insert}
use beam_mp_server.Base.Text.{Bytes}
use beam_mp_server.Lua.Engine.{Engine, has_state, ensure_state_exists}
use beam_mp_server.Plugins.Order.{sort_paths}
use beam_mp_server.Plugins.{
  PluginFolder, Chunk, Package, Loader, prepare_state, scripts_in, directories, new_plugin,
  initialize_plugin, init_plugins, collect_and_init_plugins,
}
use beam_mp_server.Plugins.Running.{
  find_and_parse_config_lem, Idle, Ran-Idle, chunks_of, in_state, new_plugin-Ran, planned, state_of,
}

has_state-ensure_state_exists :
    (state name : Bytes) (e : Engine) (j : Bytes)
    → has_state j (ensure_state_exists state name true e).1
      ≡ (if list_beq state j then true else has_state j e)
unfolding has_state ensure_state_exists
has_state-ensure_state_exists state name e j = elim (Bool-cases (has_state state e)) [
  | inl t ↦ elim (Bool-cases (list_beq state j)) [
    | inl same ↦ rw (t, same) (subst (λ i. has_state i e ≡ true) ((list_beq_iff state j).0 same) t)
    | inr n ↦ rw (t, n) refl
  ]
  | inr n ↦
      rw
        (
          n,
          lookup-insert state j (record { name = name; state_id = state; function_queue = [] })
              e.states,
        )
        (ground arith)
]

module _ {ℓ} {L : Type ℓ} (run : Bytes → Package → Chunk → L → L × Option Bytes) where
  -- From one loader to another: what was run, where nothing waits, and which states there are.
  pub record Loaded (es : List PluginFolder) (a b : Loader L) : Type ℓ where
    pub ran : b.ran ≡ a.ran ++ planned es
    pub idle : Idle b
    pub kept : (j : Bytes) → has_state j a.engine ≡ true → has_state j b.engine ≡ true
    pub made : All (λ e. has_state (state_of e) b.engine ≡ true) es

  initialize_plugin-Loaded :
      (e : PluginFolder) (a : Loader L)
      → Idle a
      → Loaded (e ∷ []) a (initialize_plugin run e (state_of e) a)
  unfolding initialize_plugin prepare_state
  initialize_plugin-Loaded e a idle =
      let state = state_of e in
      let b = prepare_state e state a in
      let exists = has_state-ensure_state_exists state e.stem a.engine in
      let here : has_state state b.engine ≡ true =
        exists state ∙ rw ((list_beq_iff state state).1 refl) refl in
      let all = new_plugin-Ran run e state b here idle in
      let (ran, engine, left, others) = all in
      record {
        ran = ran ∙ ap (λ l. a.ran ++ l) (sym (append-nil _));
        idle = Ran-Idle run state _ b (new_plugin run e state b).1 all idle;
        kept = λ j h. ap (has_state j) engine ∙ exists j ∙ ground (arith, h);
        made = (ap (has_state state) engine ∙ here, tt);
      }

  init_plugins-Loaded :
      (es : List PluginFolder) (a : Loader L) → Idle a → Loaded es a (init_plugins run es a)
  unfolding init_plugins
  init_plugins-Loaded [] a idle = record {
    ran = sym (append-nil a.ran);
    idle = idle;
    kept = λ j h. h;
    made = tt;
  }
  init_plugins-Loaded (e ∷ es) a idle =
      let b = initialize_plugin run e (state_of e) a in
      let first = initialize_plugin-Loaded e a idle in
      let rest = init_plugins-Loaded es b first.idle in
      let all : Loaded (e ∷ es) a (init_plugins run es b) = record {
        ran =
            rest.ran
            ∙ ap (λ l. l ++ planned es) first.ran
            ∙ append_assoc a.ran (planned (e ∷ [])) (planned es)
            ∙ ap (λ l. a.ran ++ (l ++ planned es))
                (append-nil (
                  in_state (state_of e)
                    (chunks_of e.relative (sort_paths (λ f. f.path) (scripts_in e.files)))));
        idle = rest.idle;
        kept = λ j h. rest.kept j (first.kept j h);
        made = (rest.kept (state_of e) first.made.0, rest.made);
      } in
      subst (λ state. Loaded (e ∷ es) a (init_plugins run es (initialize_plugin run e state a)))
        (sym (find_and_parse_config_lem e.config e.stem)) all

  -- Where no scripts wait, `CollectAndInitPlugins` runs the scripts of the directories, folder by
  -- folder and file by file in the order of their names, each in the state that its plugin asks
  -- for; no script waits then, every state that was there still is, and there is one for every
  -- plugin.
  pub collect_and_init_plugins-Loaded :
      (es : List PluginFolder) (a : Loader L)
      → Idle a
      → Loaded (sort_paths (λ e. e.path) (directories es)) a (collect_and_init_plugins run es a)
  unfolding collect_and_init_plugins
  collect_and_init_plugins-Loaded es a idle =
      init_plugins-Loaded (sort_paths (λ e. e.path) (directories es)) a idle
