-- ===== src/Plugins/Tests.antt =====
-- The collection of plugins at concrete inputs.
use beam_mp_server.Base.{ℕ, suc, ◌≡◌, refl, Bool, true, false, List, [], ◌∷◌, Option, none, some}
use beam_mp_server.App.{text_eq}
use beam_mp_server.Base.Dict.{lookup, insert}
use beam_mp_server.Base.Text.{Bytes, codes}
use beam_mp_server.Lua.Engine.{Engine, has_state, ensure_state_exists}
use beam_mp_server.Lua.Registry.{register_event}
use beam_mp_server.Plugins.Order.{text_less, place_path, sort_paths}
use beam_mp_server.Plugins.{
  PluginFile, PluginConfig, no_config, broken_config, with_id, PluginFolder, Chunk, Package, Loader,
  find_and_parse_config, push_script, enqueue_script, add_paths, path_additions, prepare_state,
  load_file, load_files, scripts_in, contents_of, directories, run_script, script_round,
  script_rounds, new_plugin, initialize_plugin, init_plugins, collect_and_init_plugins,
}
use beam_mp_server.Plugins.Collected.{Loaded, collect_and_init_plugins-Loaded}

abbrev file : Bytes → Bytes → Option Bytes → PluginFile
file path extension contents = record {
  path = path;
  relative = path;
  is_regular_file = true;
  extension = extension;
  contents = contents;
}

abbrev folder : Bytes → Bool → PluginConfig → List PluginFile → PluginFolder
folder name is_directory config files = record {
  path = name;
  relative = name;
  stem = name;
  is_directory = is_directory;
  config = config;
  files = files;
}

abbrev resources : List PluginFolder
resources =
    folder (codes "b") true (with_id (codes "A")) (
      file (codes "y.lua") (codes ".lua") (some (codes "2"))
      ∷ file (codes "X.lua") (codes ".lua") (some (codes "1"))
      ∷ file (codes "gone.lua") (codes ".lua") none
      ∷ [])
    ∷ folder (codes "readme") false no_config []
    ∷ folder (codes "A") true broken_config (
        file (codes "main.lua") (codes ".lua") (some (codes "0"))
        ∷ file (codes "old.LUA") (codes ".LUA") (some (codes "9"))
        ∷ [])
    ∷ []

abbrev no_engine : Engine
no_engine = record {
  states = [];
  events = [];
  timed_events = [];
  results = [];
  results_to_check = [];
}

abbrev empty : Loader ℕ
empty = record {
  engine = no_engine;
  execute_queues = [];
  paths = [];
  packages = [];
  script_results = [];
  lua_plugins = [];
  lua = 0;
  ran = [];
}

-- Counts what it runs.
abbrev counting : Bytes → Package → Chunk → ℕ → ℕ × Option Bytes
counting state paths c n = (suc n, none)

abbrev chunk : Bytes → Bytes → Bytes → Chunk
chunk content file_name plugin_path = record {
  content = content;
  file_name = file_name;
  plugin_path = plugin_path;
}

open_plugins : Unit {0}
unfolding lookup insert has_state ensure_state_exists register_event text_less place_path sort_paths
    find_and_parse_config push_script enqueue_script add_paths path_additions prepare_state
    load_file load_files scripts_in contents_of directories run_script script_round script_rounds
    new_plugin initialize_plugin init_plugins collect_and_init_plugins
open_plugins = tt

loaded : Loader ℕ
loaded = collect_and_init_plugins counting resources empty

ran_in_order :
    loaded.ran
    ≡ (codes "A", chunk (codes "0") (codes "main.lua") (codes "A"))
      ∷ (codes "A", chunk (codes "1") (codes "X.lua") (codes "b"))
      ∷ (codes "A", chunk (codes "2") (codes "y.lua") (codes "b"))
      ∷ []
unfolding open_plugins loaded
ran_in_order = refl

-- The second plugin has the folder of the first one in its path.
shared_path :
    lookup (codes "A") loaded.packages
    ≡ some (
      codes ";A/?.lua;A/lua/?.lua;b/?.lua;b/lua/?.lua",
      codes ";A/?.so;A/lib/?.so;b/?.so;b/lib/?.so",
    )
unfolding open_plugins loaded
shared_path = refl

collect_and_init_plugins-Loaded_example :
    Loaded counting
      (sort_paths (λ e. e.path) (directories resources))
      empty
      (collect_and_init_plugins counting resources empty)
unfolding lookup
collect_and_init_plugins-Loaded_example =
    collect_and_init_plugins-Loaded counting resources empty (λ j. refl)
