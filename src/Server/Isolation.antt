-- ===== src/Server/Isolation.antt =====
-- No packet of a client changes what the server keeps for another client.
use beam_mp_server.Base.{ℕ, Bool, Option, none, some}
use beam_mp_server.Base.Text.{Bytes}
use beam_mp_server.Ids.{PidVidData}
use beam_mp_server.Client.{Client}
use beam_mp_server.Compress.{Inflated, inflated, invalid_data, runtime_error, out_of_rounds}
use beam_mp_server.World.{Outside, World}
use beam_mp_server.World.Respects.{Respects}
use beam_mp_server.Network.Frame.{
  Frame, frame_rules, Frame-Quiet, increment_pps-Quiet, disconnect_client-Quiet,
}
use beam_mp_server.Network.Quiet.{
  trigger-Quiet, respond-Quiet, send_to_all-Quiet, client_kick-Quiet, update_player-Quiet,
  sync_client-Frame,
}
use beam_mp_server.Vehicles.Isolation.{parse_vehicle-Frame}
use beam_mp_server.Server.{
  handle_event, store_position, handle_position, pass_on, relay, pass_position, position, ping,
  chat, parse_code, parse_from, parse_packet, kick_found, kick_locked, parse_inflated,
  global_parser,
}

ruleset server_rules = (
  frame_rules, Frame-Quiet, trigger-Quiet, respond-Quiet, send_to_all-Quiet, client_kick-Quiet,
  update_player-Quiet, increment_pps-Quiet, disconnect_client-Quiet,
)

module _ {J : Type 0} (o : Outside J) (h : ℕ) where
  handle_event-Frame : (c : Client J) (s : Bytes) → Respects (Frame h) (handle_event o c s)
  unfolding handle_event
  handle_event-Frame c s = search server_rules depth 20

  store_position-Frame : (d : Option PidVidData) → Respects (Frame h) (store_position o h d)
  unfolding store_position
  store_position-Frame none = search server_rules depth 20
  store_position-Frame (some d) = search server_rules depth 20

  handle_position-Frame : (s : Bytes) → Respects (Frame h) (handle_position o h s)
  unfolding handle_position
  handle_position-Frame s = search (store_position-Frame) depth 20

  pass_on-Frame : (s : Bytes) (vid : Option ℕ) → Respects (Frame h) (pass_on o h s vid)
  unfolding pass_on
  pass_on-Frame s none = search server_rules depth 20
  pass_on-Frame s (some vid) = search server_rules depth 20

  relay-Frame : (c : Client J) (s : Bytes) → Respects (Frame h) (relay o h c s)
  unfolding relay
  relay-Frame c s = search (server_rules, pass_on-Frame) depth 20

  pass_position-Frame : (s : Bytes) (vid : Option ℕ) → Respects (Frame h) (pass_position o h s vid)
  unfolding pass_position
  pass_position-Frame s none = search server_rules depth 20
  pass_position-Frame s (some vid) = search (server_rules, handle_position-Frame) depth 20

  position-Frame : (c : Client J) (s : Bytes) → Respects (Frame h) (position o h c s)
  unfolding position
  position-Frame c s = search (server_rules, pass_position-Frame) depth 20

  ping-Frame : Respects (Frame h) (ping o h)
  unfolding ping
  ping-Frame = search server_rules depth 20

  chat-Frame : (c : Client J) (s : Bytes) → Respects (Frame h) (chat o c s)
  unfolding chat
  chat-Frame c s = search server_rules depth 20

  parse_code-Frame :
      (code : ℕ) (c : Client J) (s : Bytes) (udp : Bool)
      → Respects (Frame h) (parse_code o code h c s udp)
  unfolding parse_code
  parse_code-Frame code c s udp =
      search
        (
          server_rules, relay-Frame, sync_client-Frame, ping-Frame, parse_vehicle-Frame, chat-Frame,
          handle_event-Frame, position-Frame,
        )
        depth 30

  parse_from-Frame :
      (c : Option (Client J)) (s : Bytes) (udp : Bool) → Respects (Frame h) (parse_from o h c s udp)
  unfolding parse_from
  parse_from-Frame none s udp = search server_rules depth 20
  parse_from-Frame (some c) s udp = parse_code-Frame _ c s udp

  parse_packet-Frame : (s : Bytes) (udp : Bool) → Respects (Frame h) (parse_packet o h s udp)
  unfolding parse_packet
  parse_packet-Frame s udp = search (server_rules, parse_from-Frame) depth 20

  kick_found-Frame : (c : Option (Client J)) (s : Bytes) → Respects (Frame h) (kick_found o h c s)
  unfolding kick_found
  kick_found-Frame none s = search server_rules depth 20
  kick_found-Frame (some c) s = search server_rules depth 20

  kick_locked-Frame : (s : Bytes) → Respects (Frame h) (kick_locked o h s)
  unfolding kick_locked
  kick_locked-Frame s = search (server_rules, kick_found-Frame) depth 20

  parse_inflated-Frame : (s : Inflated) (udp : Bool) → Respects (Frame h) (parse_inflated o h s udp)
  unfolding parse_inflated
  parse_inflated-Frame (inflated s) udp = parse_packet-Frame s udp
  parse_inflated-Frame invalid_data udp = kick_locked-Frame _
  parse_inflated-Frame runtime_error udp = kick_locked-Frame _
  parse_inflated-Frame out_of_rounds udp = search server_rules depth 20

  pub global_parser-Respects :
      (s : Bytes) (udp : Bool) → Respects (Frame h) (global_parser o h s udp)
  unfolding global_parser
  global_parser-Respects s udp =
      search (server_rules, parse_inflated-Frame, parse_packet-Frame) depth 20

-- Whatever bytes a client sends, over TCP or UDP, compressed or not, and whatever the libraries,
-- the sockets and the handlers answer: once the packet is dealt with, every other client has its
-- vehicles, positions, id, name, roles, sync flags and all else but its queue, its connection
-- state and its ping time as before, and the set of clients is as before.
pub global_parser-Frame :
    {J : Type 0} (o : Outside J) (h : ℕ) (packet : Bytes) (udp : Bool) (w : World J)
    → Frame h w (global_parser o h packet udp w).1
global_parser-Frame o h packet udp w = (global_parser-Respects o h packet udp).apply w
