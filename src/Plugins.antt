-- ===== src/Plugins.antt =====
-- src/TLuaPlugin.cpp, and the collection of the plugins and the queue of scripts of
-- src/TLuaEngine.cpp. What the file system shows of a folder is given with it. The thread that makes
-- a plugin waits until its scripts have run, so the rounds of the state's thread stand where it
-- waits. Lua, and what a script does, is a parameter; `ran` only says in which order the scripts
-- were run, and in which states.
pub mod Order
pub mod Running
pub mod Collected
mod Tests
use mathlib.Core.List
use beam_mp_server.Base.{
  ℕ, zero, suc, Bool, true, false, not, ◌&&◌, List, [], ◌∷◌, ◌++◌, Option, none, some, ltb, ◌==◌,
  if◌then◌else◌, length, is_empty,
}
use beam_mp_server.App.{text_eq}
use beam_mp_server.Base.Dict.{lookup, insert}
use beam_mp_server.Base.Text.{Bytes, codes}
use beam_mp_server.Lua.Engine.{Engine, has_state, ensure_state_exists}
use beam_mp_server.Lua.Loops.{update_at}
use beam_mp_server.Lua.Scripts.{
  ScriptResult, new_script_result, mark_ready_success, mark_ready_error,
}
use beam_mp_server.Plugins.Order.{sort_paths}

pub record PluginFile : Type 0 where
  pub path : Bytes
  pub relative : Bytes
  pub is_regular_file : Bool
  pub extension : Bytes
  -- `none` is an exception.
  pub contents : Option Bytes

-- PluginConfig.toml: not there, not read because of an exception, without `LuaStateID`, or with it.
pub data PluginConfig : Type 0 where
  no_config broken_config without_id : PluginConfig
  with_id : Bytes → PluginConfig

-- An entry of the folder of the server's plugins.
pub record PluginFolder : Type 0 where
  pub path : Bytes
  pub relative : Bytes
  pub stem : Bytes
  pub is_directory : Bool
  pub config : PluginConfig
  pub files : List PluginFile

pub record Chunk : Type 0 where
  pub content : Bytes
  pub file_name : Bytes
  pub plugin_path : Bytes

pub record QueuedScript : Type 0 where
  pub chunk : Chunk
  pub result : ℕ

pub record Plugin : Type 0 where
  pub state_id : Bytes
  pub folder : Bytes
  pub plugin_name : Bytes
  pub file_contents : List (Bytes × Bytes)

-- `package.path` and `package.cpath` of a state.
abbrev pub Package : Type 0
Package = Bytes × Bytes

-- The engine with the scripts that wait (`mStateExecuteQueue`), the folders that wait (`mPaths`) and
-- the `package` of each state.
pub record Loader {ℓ} (L : Type ℓ) : Type ℓ where
  pub engine : Engine
  pub execute_queues : List (Bytes × List QueuedScript)
  pub paths : List (Bytes × List Bytes)
  pub packages : List (Bytes × Package)
  pub script_results : List ScriptResult
  pub lua_plugins : List Plugin
  pub lua : L
  pub ran : List (Bytes × Chunk)

abbrev pub or_nothing {ℓ} : {A : Type ℓ} → Option (List A) → List A
or_nothing none = []
or_nothing (some xs) = xs

abbrev pub scripts_of {ℓ} : {L : Type ℓ} → Bytes → Loader L → List QueuedScript
scripts_of state ld = or_nothing (lookup state ld.execute_queues)

-- Where `FindAndParseConfig` leaves the state's id.
unfoldable pub find_and_parse_config : PluginConfig → Bytes → Bytes
find_and_parse_config (with_id id) state = if is_empty id then state else id
find_and_parse_config _ state = state

unfoldable pub path_additions : List Bytes → Package
path_additions [] = ([], [])
path_additions (p ∷ ps) =
    let rest = path_additions ps in
    (
      codes ";" ++ p ++ codes "/?.lua;" ++ p ++ codes "/lua/?.lua" ++ rest.0,
      codes ";" ++ p ++ codes "/?.so;" ++ p ++ codes "/lib/?.so" ++ rest.1,
    )

abbrev pub package_of : Option Package → Package
package_of none = ([], [])
package_of (some p) = p

abbrev pub mark_ready : Option Bytes → ScriptResult → ScriptResult
mark_ready none r = mark_ready_success r
mark_ready (some message) r = mark_ready_error message r

module _ {ℓ} {L : Type ℓ} where
  unfoldable pub push_script : Bytes → Chunk → Loader L → Loader L
  push_script state chunk ld =
      let q : QueuedScript = record { chunk = chunk; result = length ld.script_results } in
      record ld {
        script_results = ld.script_results ++ new_script_result state ∷ [];
        execute_queues = insert state (scripts_of state ld ++ q ∷ []) ld.execute_queues;
      }

  -- `EnqueueScript`, with the handle of the result; `none` is the exception of `at` for a state
  -- that does not exist.
  unfoldable pub enqueue_script : Bytes → Chunk → Loader L → Option (ℕ × Loader L)
  enqueue_script state chunk ld =
      if has_state state ld.engine
      then some (length ld.script_results, push_script state chunk ld)
      else none

  -- The folders that wait for a state go into its `package`.
  unfoldable pub add_paths : Bytes → Loader L → Loader L
  add_paths state ld =
      let waiting = or_nothing (lookup state ld.paths) in
      let old = package_of (lookup state ld.packages) in
      let more = path_additions waiting in
      if is_empty waiting then ld else record ld {
        paths = insert state [] ld.paths;
        packages = insert state (old.0 ++ more.0, old.1 ++ more.1) ld.packages;
      }

  -- `AddPath` after `EnsureStateExists`.
  unfoldable pub prepare_state : PluginFolder → Bytes → Loader L → Loader L
  prepare_state e state ld = record ld {
    engine = (ensure_state_exists state e.stem true ld.engine).1;
    paths = insert state (or_nothing (lookup state ld.paths) ++ e.relative ∷ []) ld.paths;
  }

  -- The file is read and its script queued; an exception leaves it out.
  unfoldable pub load_file : Bytes → Bytes → PluginFile → Loader L → Loader L
  load_file state folder f ld = elim f.contents [
    | none ↦ ld
    | some c ↦
        elim (enqueue_script state
          (record { content = c; file_name = f.path; plugin_path = folder }) ld) [
            | none ↦ ld
            | some queued ↦ queued.1
          ]
  ]

  unfoldable pub load_files : Bytes → Bytes → List PluginFile → Loader L → Loader L
  load_files state folder [] ld = ld
  load_files state folder (f ∷ fs) ld = load_files state folder fs (load_file state folder f ld)

abbrev pub is_script : PluginFile → Bool
is_script f = f.is_regular_file && text_eq.beq f.extension (codes ".lua")

unfoldable pub scripts_in : List PluginFile → List PluginFile
scripts_in [] = []
scripts_in (f ∷ fs) = let rest = scripts_in fs in if is_script f then f ∷ rest else rest

abbrev pub keep_contents : Bytes → Option Bytes → List (Bytes × Bytes) → List (Bytes × Bytes)
keep_contents path none m = m
keep_contents path (some c) m = insert path c m

-- `mFileContents`.
unfoldable pub contents_of : List PluginFile → List (Bytes × Bytes) → List (Bytes × Bytes)
contents_of [] m = m
contents_of (f ∷ fs) m = contents_of fs (keep_contents f.relative f.contents m)

-- What the file system shows of the folder of the plugins, without what is no directory.
unfoldable pub directories : List PluginFolder → List PluginFolder
directories [] = []
directories (e ∷ es) = let rest = directories es in if e.is_directory then e ∷ rest else rest

module _ {ℓ} {L : Type ℓ} (run : Bytes → Package → Chunk → L → L × Option Bytes) where
  unfoldable pub run_script : Bytes → QueuedScript → List QueuedScript → Loader L → Loader L
  run_script state q qs ld =
      let ready = add_paths state ld in
      let answer = run state (package_of (lookup state ready.packages)) q.chunk ready.lua in
      record ready {
        execute_queues = insert state qs ready.execute_queues;
        script_results = update_at q.result (mark_ready answer.1) ready.script_results;
        lua = answer.0;
        ran = ready.ran ++ (state, q.chunk) ∷ [];
      }

  -- The part of a round of a state's thread that is about its scripts.
  unfoldable pub script_round : Bytes → Loader L → Loader L
  script_round state ld = elim (scripts_of state ld) [ [] ↦ ld | q ∷ qs ↦ run_script state q qs ld ]

  unfoldable pub script_rounds : ℕ → Bytes → Loader L → Loader L
  script_rounds zero state ld = ld
  script_rounds (suc n) state ld = script_rounds n state (script_round state ld)

  -- The constructor of `TLuaPlugin`, which ends when all its scripts have run.
  unfoldable pub new_plugin : PluginFolder → Bytes → Loader L → Plugin × Loader L
  new_plugin e state ld =
      let files = sort_paths (λ f. f.path) (scripts_in e.files) in
      let queued = load_files state e.relative files ld in
      (
        record {
          state_id = state;
          folder = e.relative;
          plugin_name = e.stem;
          file_contents = contents_of files [];
        },
        script_rounds (length (scripts_of state queued)) state queued,
      )

  unfoldable pub initialize_plugin : PluginFolder → Bytes → Loader L → Loader L
  initialize_plugin e state ld =
      let made = new_plugin e state (prepare_state e state ld) in
      record (made.1) { lua_plugins = made.1.lua_plugins ++ made.0 ∷ [] }

  unfoldable pub init_plugins : List PluginFolder → Loader L → Loader L
  init_plugins [] ld = ld
  init_plugins (e ∷ es) ld =
      init_plugins es (initialize_plugin e (find_and_parse_config e.config e.stem) ld)

  unfoldable pub collect_and_init_plugins : List PluginFolder → Loader L → Loader L
  collect_and_init_plugins es ld = init_plugins (sort_paths (λ e. e.path) (directories es)) ld
