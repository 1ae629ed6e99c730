-- ===== src/Examples/Plugins.antt =====
-- The theorems on the plugins' interface, the monitor and the handshake at concrete inputs.
use beam_mp_server.Base.{◌≡◌, refl, true, false, [], ◌∷◌, arith, nat_eq}
use beam_mp_server.Base.Dict.{lookup}
use beam_mp_server.Base.Ints.{pos}
use beam_mp_server.Base.Text.{Bytes, codes}
use beam_mp_server.World.{
  Outside, World, ok, or_throw, fetch, return, done, ask, note, modify, ◌>>=◌, ◌>>◌,
}
use beam_mp_server.Network.{
  respond, goes_by_tcp, may_shrink, tcp_send, send_now, write_socket, disconnect_client,
}
use beam_mp_server.Versions.{Version}
use beam_mp_server.Settings.{Settings, int_setting, general_max_cars, key_eq}
use beam_mp_server.Monitor.Timeouts.{Monitored, monitor_round_lem}
use beam_mp_server.Session.Connection.{client_rounds}
use beam_mp_server.Session.Connection.Fuel.{Ended, client_rounds_enough}
use beam_mp_server.Api.{get_client, find_client, notify_found, send_notification}
use beam_mp_server.Examples.{outside, world, alice, bob}

-- Twenty-one minutes later.
abbrev later : World Bytes
later = record world { now = 1260; pps = 9 }

monitor_round_lem_example : Monitored later
monitor_round_lem_example = monitor_round_lem later refl

client_rounds_enough_example :
    Ended outside 1 (codes "abc") world (client_rounds outside 4 1 (codes "abc") world)
    × (client_rounds outside 4 1 (codes "abc") world
        ≡ client_rounds outside 9 1 (codes "abc") world)
client_rounds_enough_example =
    client_rounds_enough outside 1 4 9 (codes "abc") world (omega arith) (omega arith)

abbrev oldest : Version
oldest = record { major = 2; minor = 4; patch = 0 }

abbrev one_car : Settings
one_car = record { values = (general_max_cars, int_setting (pos 1)) ∷ []; access = [] }

abbrev five_cars : Settings
five_cars = record { values = (general_max_cars, int_setting (pos 5)) ∷ []; access = [] }

-- A world whose sockets take nothing.
abbrev broken : Outside Bytes
broken = record outside { write_works = λ trace h s. false }

-- Bob's socket takes nothing.
reported :
    (send_notification broken (pos 1) (codes "hello") (codes "icon") (codes "info") world).0
    ≡ ok (true, codes "Failed to send packet")
unfolding alice bob get_client find_client lookup send_notification notify_found respond goes_by_tcp
    may_shrink or_throw tcp_send send_now write_socket fetch ◌>>=◌ ◌>>◌ return done ask note modify
    disconnect_client
reported = refl
