-- ===== src/Network/Quiet.antt =====
-- Sending is quiet: no method of the sending half changes more of a client than its queue, its
-- connection and its ping time, and syncing a client changes that client besides.
use beam_mp_server.Base.{ℕ, Bool, List, Option, none, some, refl, nat_eq}
use beam_mp_server.Base.Text.{Bytes}
use beam_mp_server.Client.{Client, Vehicle}
use beam_mp_server.World.{Outside, for_each_client, trigger, Arg}
use beam_mp_server.World.Respects.{Respects, for_each_client-Respects}
use beam_mp_server.Network.{
  write_socket, send_now, tcp_send, client_kick, shrink, send_large, send_datagram, udp_send,
  respond, queued_form, deliver, send_to_one, send_to_all, update_player, sync_vehicle, sync_one,
  sync_clients, sync_state, announce, sync_found, sync_client,
}
use beam_mp_server.Network.Frame.{
  Quiet, Frame, Quiet-order, quiet_rules, frame_rules, Frame-Quiet, send_later-Quiet,
}

module _ {J : Type 0} (o : Outside J) where
  pub trigger-Quiet : (name : Bytes) (args : List Arg) → Respects Quiet (trigger o name args)
  unfolding trigger
  trigger-Quiet name args = record { apply = λ w. record { owned = λ j. refl; membership = refl } }

  write_socket-Quiet : (h : ℕ) (s : Bytes) → Respects Quiet (write_socket o h s)
  unfolding write_socket
  write_socket-Quiet h s = search quiet_rules depth 20

  send_now-Quiet : (h : ℕ) (s : Bytes) → Respects Quiet (send_now o h s)
  unfolding send_now
  send_now-Quiet h s = search (quiet_rules, write_socket-Quiet) depth 20

  pub tcp_send-Quiet : (h : ℕ) (s : Bytes) (b : Bool) → Respects Quiet (tcp_send o h s b)
  unfolding tcp_send
  tcp_send-Quiet h s b = search (quiet_rules, send_later-Quiet, send_now-Quiet) depth 20

  pub client_kick-Quiet : (h : ℕ) (s : Bytes) → Respects Quiet (client_kick o h s)
  unfolding client_kick
  client_kick-Quiet h s = search (quiet_rules, tcp_send-Quiet) depth 20

  shrink-Quiet : (s : Bytes) → Respects Quiet (shrink o s)
  unfolding shrink
  shrink-Quiet s = search quiet_rules depth 20

  send_large-Quiet : (h : ℕ) (s : Bytes) (b : Bool) → Respects Quiet (send_large o h s b)
  unfolding send_large
  send_large-Quiet h s b = search (quiet_rules, shrink-Quiet, tcp_send-Quiet) depth 20

  send_datagram-Quiet : (h a : ℕ) (s : Bytes) → Respects Quiet (send_datagram o h a s)
  unfolding send_datagram
  send_datagram-Quiet h a s = search (quiet_rules, shrink-Quiet) depth 20

  udp_send-Quiet : (h : ℕ) (s : Bytes) → Respects Quiet (udp_send o h s)
  unfolding udp_send
  udp_send-Quiet h s = search (quiet_rules, send_datagram-Quiet) depth 20

  pub respond-Quiet : (h : ℕ) (s : Bytes) (rel b : Bool) → Respects Quiet (respond o h s rel b)
  unfolding respond
  respond-Quiet h s rel b =
      search (quiet_rules, send_large-Quiet, tcp_send-Quiet, udp_send-Quiet) depth 20

  queued_form-Quiet : (code : ℕ) (s : Bytes) → Respects Quiet (queued_form o code s)
  unfolding queued_form
  queued_form-Quiet code s = search (quiet_rules, shrink-Quiet) depth 20

  deliver-Quiet :
      (code : ℕ) (s : Bytes) (rel : Bool) (h : ℕ) → Respects Quiet (deliver o code s rel h)
  unfolding deliver
  deliver-Quiet code s rel h = search (quiet_rules, queued_form-Quiet, udp_send-Quiet) depth 20

  send_to_one-Quiet :
      (sender : Option ℕ) (code : ℕ) (s : Bytes) (self rel : Bool) (h : ℕ)
      → Respects Quiet (send_to_one o sender code s self rel h)
  unfolding send_to_one
  send_to_one-Quiet sender code s self rel h = search (quiet_rules, deliver-Quiet) depth 20

  each-Quiet :
      (sender : Option ℕ) (code : ℕ) (s : Bytes) (self rel : Bool)
      → Respects Quiet (for_each_client (send_to_one o sender code s self rel))
  each-Quiet sender code s self rel =
      for_each_client-Respects Quiet-order _ (send_to_one-Quiet sender code s self rel)

  pub send_to_all-Quiet :
      (sender : Option ℕ) (s : Bytes) (self rel : Bool)
      → Respects Quiet (send_to_all o sender s self rel)
  unfolding send_to_all
  send_to_all-Quiet sender s self rel = search (quiet_rules, each-Quiet) depth 20

  pub update_player-Quiet : (h : ℕ) → Respects Quiet (update_player o h)
  unfolding update_player
  update_player-Quiet h = search quiet_rules depth 20

  sync_vehicle-Quiet :
      (h : ℕ) (other : Client J) (v : Vehicle J) → Respects Quiet (sync_vehicle o h other v)
  unfolding sync_vehicle
  sync_vehicle-Quiet h other v = search (quiet_rules, respond-Quiet) depth 20

  sync_one-Quiet : (h j : ℕ) (other : Option (Client J)) → Respects Quiet (sync_one o h j other)
  unfolding sync_one
  sync_one-Quiet h j none = search quiet_rules
  sync_one-Quiet h j (some c) = search (quiet_rules, sync_vehicle-Quiet) depth 20

  sync_clients-Quiet : (h : ℕ) (js : List ℕ) → Respects Quiet (sync_clients o h js)
  unfolding sync_clients
  sync_clients-Quiet h js = search (quiet_rules, sync_one-Quiet) depth 20

  -- The rules for code that changes its own client, and otherwise sends.
  module _ (h : ℕ) where
    sync_state-Frame : Respects (Frame h) (sync_state o h)
    unfolding sync_state
    sync_state-Frame = search (frame_rules, Frame-Quiet, sync_clients-Quiet) depth 20

    announce-Frame : (c : Client J) → Respects (Frame h) (announce o h c)
    unfolding announce
    announce-Frame c =
        search
          (
            frame_rules, Frame-Quiet, respond-Quiet, send_to_all-Quiet, trigger-Quiet,
            sync_state-Frame,
          )
          depth 20

    sync_found-Frame : (c : Option (Client J)) → Respects (Frame h) (sync_found o h c)
    unfolding sync_found
    sync_found-Frame none = search frame_rules
    sync_found-Frame (some c) = search (frame_rules, announce-Frame)

    pub sync_client-Frame : Respects (Frame h) (sync_client o h)
    unfolding sync_client
    sync_client-Frame = search (frame_rules, sync_found-Frame) depth 20
