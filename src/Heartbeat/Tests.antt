-- ===== src/Heartbeat/Tests.antt =====
-- Heartbeats at concrete inputs, and the theorems there.
use beam_mp_server.Base.{
  ℕ, ◌≡◌, refl, true, false, List, [], ◌∷◌, ◌++◌, none, some, is_empty, if◌then◌else◌, ◌*◌, sym,
  ◌∙◌, Bool-cases, inl, inr,
}
use beam_mp_server.Base.Dict.{lookup, insert, lookup-insert}
use beam_mp_server.Base.Decimal.{to_string, digits_of}
use beam_mp_server.Base.Text.{Bytes, codes}
use beam_mp_server.App.{
  App, get_backend_urls_in_order, server_version, set_subsystem_status, text_eq,
}
use beam_mp_server.Examples.{outside, world, plain_json}
use beam_mp_server.Heartbeat.{
  Call, Heartbeat, ModTotals, Tick, second, generate_call, keyed_call, public_call, get_players,
  post_heartbeat, status_of, after_post, remind, mark_good, heartbeat_round, send_or_wait,
}
use beam_mp_server.Heartbeat.Pace.{heartbeats, heartbeats-Spaced, Spaced}
use beam_mp_server.Heartbeat.Secrecy.{identify-secret, SameButKey}
use beam_mp_server.Session.Handshake.{Handshake}
use beam_mp_server.Session.Identify.{identify}
use beam_mp_server.Settings.{
  Settings, initial, initial_values, text_setting, general_auth_key, key_eq, same_key, same_key_iff,
  get, get_as_string, get_as_bool, get_as_int,
}
use beam_mp_server.Versions.{Version, as_string}
use beam_mp_server.World.{print_int}

abbrev dump_values : Call → Bytes
dump_values [] = []
dump_values ((name, v) ∷ call) = v ++ dump_values call

abbrev no_mods : ModTotals
no_mods = record { trimmed_list = []; max_mod_size = 0; mods_loaded = 0 }

abbrev oldest : Version
oldest = record { major = 2; minor = 2; patch = 0 }

abbrev begun : Heartbeat
begun = record {
  last = [];
  last_normal_update_time = 0;
  last_update_reminder_time = 0;
  is_auth = false;
  last_call = [];
}

abbrev fresh : App ℕ
fresh = record {
  statuses = [];
  is_shutdown = false;
  handlers = [];
  already_shutting_down = false;
  shutdown_attempts = 0;
  first_time = true;
  notices = [];
}

abbrev at_second : ℕ → Tick Bytes
at_second n = record {
  now = n * second;
  later = n * second;
  world = record world { store = []; members = [] };
  settings = initial;
  post = λ url body. (codes "{}", 200);
  http_get = λ url. codes "3.9.3";
}

abbrev ticks : List (Tick Bytes)
ticks = at_second 3 ∷ at_second 6 ∷ at_second 20 ∷ at_second 36 ∷ []

abbrev times : List (ℕ × Bytes) → List ℕ
times [] = []
times ((n, body) ∷ rest) = n ∷ times rest

two_sent :
    times (heartbeats plain_json dump_values (λ s. 0) oldest oldest no_mods ticks (begun, fresh))
    ≡ 6000000000 ∷ 36000000000 ∷ []
unfolding heartbeat_round send_or_wait generate_call keyed_call public_call get_players
    post_heartbeat status_of after_post remind mark_good get_as_string get_as_bool get_as_int get
    lookup insert initial initial_values get_backend_urls_in_order server_version
    set_subsystem_status as_string to_string digits_of print_int
two_sent = refl

heartbeats-Spaced_example :
    Spaced 0 []
      (heartbeats plain_json dump_values (λ s. 0) oldest oldest no_mods ticks (begun, fresh))
heartbeats-Spaced_example =
    heartbeats-Spaced plain_json dump_values (λ s. 0) oldest oldest no_mods ticks begun fresh

abbrev keyed : Settings
keyed = record {
  values = insert general_auth_key (text_setting (codes "secret")) initial_values;
  access = [];
}

same_but_key : SameButKey initial keyed
unfolding initial
same_but_key k h = elim (Bool-cases (same_key general_auth_key k)) [
  | inl b ↦ absurd (h (sym ((same_key_iff general_auth_key k).0 b)))
  | inr b ↦
      sym (
        lookup-insert general_auth_key k (text_setting (codes "secret")) initial_values ∙ rw b refl)
]

abbrev handshake : Handshake Bytes
handshake = record {
  starting = false;
  min_version = oldest;
  memory = oldest;
  allow_guests = true;
  post = λ key own ip. if is_empty key then none else some (codes "{}");
  as_bool = λ doc. none;
  items = λ doc. none;
}

-- The key of `initial` is empty.
initial_key : get_as_string general_auth_key initial ≡ some []
unfolding get_as_string get lookup initial initial_values
initial_key = refl

secret_key : get_as_string general_auth_key keyed ≡ some (codes "secret")
unfolding get_as_string get lookup insert initial_values
secret_key = refl

identify-secret_example :
    identify outside handshake initial
      (generate_call dump_values oldest no_mods world initial begun).1.last_call
      1
      []
      (codes "I")
      world
    ≡ identify outside handshake keyed
        (generate_call dump_values oldest no_mods world keyed begun).1.last_call
        1
        []
        (codes "I")
        world
identify-secret_example =
    identify-secret outside handshake dump_values oldest no_mods world world initial keyed []
      (codes "secret") begun 1 [] (codes "I") same_but_key initial_key secret_key (λ key ip. refl)
