-- ===== src/Session/Connection.antt =====
-- `TCPClient` of src/TNetwork.cpp: the thread of one player's connection.
pub mod Packets
pub mod Fuel
use beam_mp_server.Base.{
  ℕ, zero, suc, Bool, true, false, Option, none, some, if◌then◌else◌, length, is_empty,
}
use beam_mp_server.Base.Text.{Bytes}
use beam_mp_server.Client.{Client, is_disconnected}
use beam_mp_server.World.{Outside, World, Outcome, M, ok, threw, ◌>>=◌, ◌>>◌, return, done, lock}
use beam_mp_server.Network.{disconnect_client}
use beam_mp_server.Server.{global_parser, remove_client}
use beam_mp_server.Receive.{tcp_rcv}
use beam_mp_server.Download.{Files}
use beam_mp_server.Session.{on_connect, on_disconnect}

abbrev pub caught : {J : Type 0} → Outcome (Unit {0}) × World J → Outcome Bool × World J
caught (ok tt, w) = (ok true, w)
caught (threw, w) = (ok false, w)

-- `try`, with `false` for an exception.
unfoldable pub attempt : {J : Type 0} → M J (Unit {0}) → M J Bool
attempt m w = caught (m w)

module _ {J : Type 0} (o : Outside J) where
  unfoldable pub drop_out : ℕ → Bytes → M J Bytes
  drop_out h stream = do disconnect_client h; return stream

  -- A round's steps, `go` being the rest of the loop: what follows the parsing of a packet, what
  -- follows its receipt, and what a client that is still there leads to.
  unfoldable pub after_parsing : (Bytes → M J Bytes) → ℕ → Bytes → Bool → M J Bytes
  after_parsing go h stream parsed = if parsed then go stream else drop_out h stream

  unfoldable pub after_receipt : (Bytes → M J Bytes) → ℕ → Bytes × Bytes → M J Bytes
  after_receipt go h received = if is_empty received.0 then drop_out h received.1 else (do
    parsed ← attempt (global_parser o h received.0 false)
    after_parsing go h received.1 parsed)

  unfoldable pub client_found : (Bytes → M J Bytes) → ℕ → Bytes → Option (Client J) → M J Bytes
  client_found go h stream none = return stream
  client_found go h stream (some c) =
      if is_disconnected c
      then return stream
      else (do received ← tcp_rcv o h stream; after_receipt go h received)

  -- The loop on fuel, with one round for a packet of the stream. What is left of it is given back.
  unfoldable pub client_rounds : ℕ → ℕ → Bytes → M J Bytes
  client_rounds zero h stream = return stream
  client_rounds (suc fuel) h stream = do c ← lock h; client_found (client_rounds fuel h) h stream c

  unfoldable pub remove : ℕ → M J (Unit {0})
  remove h w = (ok tt, remove_client h w)

  unfoldable pub serve : Files → Option Bytes → ℕ → Bytes → M J (Unit {0})
  serve files magic h stream = do
    rest ← on_connect o files magic h stream
    c ← lock h
    elim c [ none ↦ done | some c ↦ do client_rounds (suc (length rest)) h rest; on_disconnect o h ]

  unfoldable pub tcp_client : Files → Option Bytes → ℕ → Bytes → M J (Unit {0})
  tcp_client files magic h stream = do
    c ← lock h
    elim c [
      | none ↦ remove h
      | some c ↦ if is_disconnected c then remove h else serve files magic h stream
    ]
