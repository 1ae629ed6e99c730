-- ===== src/Session/Identify.antt =====
-- `Identify` of src/TNetwork.cpp: the first byte of a connection says what it is for. The connection
-- has the handle of the client that `Authentication` makes of it.
use beam_mp_server.Base.{ℕ, false, [], ◌∷◌, ◌++◌, Option, none, some, ◌==◌, if◌then◌else◌, length}
use beam_mp_server.Base.Text.{Bytes, codes}
use beam_mp_server.Network.{header, write_socket}
use beam_mp_server.Session.Handshake.{Handshake, authentication}
use beam_mp_server.Settings.{
  Settings, get_as_bool, get_as_string, general_auth_key, general_information_packet,
}
use beam_mp_server.World.{
  Outside, World, Outcome, M, ok, threw, ◌>>=◌, ◌>>◌, done, modify, or_throw,
}

-- What anyone may ask for: the last heartbeat, unless the settings forbid it.
unfoldable pub information : Settings → Bytes → Option Bytes
information s last_call = elim (get_as_bool general_information_packet s) [
  | none ↦ none
  | some allowed ↦ some (if allowed then last_call else [])
]

abbrev pub or_close :
    {J : Type 0} → M J (Unit {0}) → Outcome (Unit {0}) × World J → Outcome (Unit {0}) × World J
or_close close (ok tt, w) = (ok tt, w)
or_close close (threw, w) = close w

-- `try`, with what follows an exception.
unfoldable pub catching : {J : Type 0} → M J (Unit {0}) → M J (Unit {0}) → M J (Unit {0})
catching m close w = or_close close (m w)

module _ {J : Type 0} (o : Outside J) (hs : Handshake J) (s : Settings) where
  unfoldable pub close_connection : ℕ → M J (Unit {0})
  close_connection h = modify h (λ c. record c { socket_open = false })

  unfoldable pub answer_code : ℕ → Bytes → Option Bytes → ℕ → Bytes → M J (Unit {0})
  answer_code h ip info code stream =
      if code == b'C'
      then (do authentication o hs (get_as_string general_auth_key s) h ip stream; done)
      else if code == b'D'
      then done
      else if code == b'P'
      then (do write_socket o h (codes "P"); done)
      else if code == b'I'
      then (do text ← or_throw info; write_socket o h (header (length text) ++ text); done)
      else done

  -- A connection that closes before its first byte is closed here too.
  unfoldable pub identify : Bytes → ℕ → Bytes → Bytes → M J (Unit {0})
  identify last_call h ip [] = close_connection h
  identify last_call h ip (code ∷ stream) =
      catching (answer_code h ip (information s last_call) code stream) (close_connection h)
