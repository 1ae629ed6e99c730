-- ===== src/Heartbeat/Secrecy.antt =====
-- What unconnected clients can learn of the key by which the server is known to the backend.
use beam_mp_server.Base.{
  ◌≡◌, refl, ap, ◌∙◌, ◌≢◌, [], ◌∷◌, Option, none, some, arith, Bool, is_empty, if◌then◌else◌, false,
  ℕ, list_eq,
}
use beam_mp_server.Base.Dict.{lookup}
use beam_mp_server.Base.Text.{Bytes, codes}
use beam_mp_server.Heartbeat.{Call, Heartbeat, ModTotals, public_call, generate_call, keyed_call}
use beam_mp_server.Settings.{
  Key, Settings, key_eq, get, get_as_string, get_as_bool, get_as_int, general_auth_key,
  general_max_players, general_port, general_map, general_private, general_name, general_tags,
  general_allow_guests, general_description, general_information_packet, key_index,
}
use beam_mp_server.Versions.{Version}
use mathlib.Core.Path.{fun_ext}
use beam_mp_server.Network.{tcp_send}
use beam_mp_server.Receive.{tcp_rcv}
use beam_mp_server.World.{Outside, World, M, ◌>>=◌, ◌>>◌, return, fetch, modify, or_throw}
use beam_mp_server.Session.Handshake.{
  Handshake, authentication, with_version, with_key, ask_backend, kick_out, key_refusal,
  version_refusal, set_identifier,
}
use beam_mp_server.Session.Identify.{identify, information, answer_code, catching, close_connection}

-- Settings that differ in the key at most.
abbrev pub SameButKey : Settings → Settings → Type 0
SameButKey s t = (k : Key) → k ≢ general_auth_key → lookup k s.values ≡ lookup k t.values

other_key : (k : Key) → (key_index k ≡ 7 → ⊥) → k ≢ general_auth_key
other_key k h e = h (ap key_index e)

public_call-secret :
    {J : Type 0} (client_minimum : Version) (mods : ModTotals) (w : World J) (s t : Settings)
    → SameButKey s t
    → public_call client_minimum mods w s ≡ public_call client_minimum mods w t
unfolding public_call get_as_string get_as_bool get_as_int get
public_call-secret client_minimum mods w s t h =
    rw
      (
        h general_max_players (other_key general_max_players (omega arith)),
        h general_port (other_key general_port (omega arith)),
        h general_map (other_key general_map (omega arith)),
        h general_private (other_key general_private (omega arith)),
        h general_name (other_key general_name (omega arith)),
        h general_tags (other_key general_tags (omega arith)),
        h general_allow_guests (other_key general_allow_guests (omega arith)),
        h general_description (other_key general_description (omega arith)),
      )
      refl

keyed_call-last_call :
    (dump : Call → Bytes) (c : Option Call) (a b : Option Bytes) (hb : Heartbeat)
    → (keyed_call dump c a hb).1.last_call ≡ (keyed_call dump c b hb).1.last_call
unfolding keyed_call
keyed_call-last_call dump none a b hb = refl
keyed_call-last_call dump (some call) none none hb = refl
keyed_call-last_call dump (some call) none (some b) hb = refl
keyed_call-last_call dump (some call) (some a) none hb = refl
keyed_call-last_call dump (some call) (some a) (some b) hb = refl

last_call-secret :
    {J : Type 0} (dump : Call → Bytes) (client_minimum : Version) (mods : ModTotals) (w : World J)
    (s t : Settings) (hb : Heartbeat)
    → SameButKey s t
    → (generate_call dump client_minimum mods w s hb).1.last_call
      ≡ (generate_call dump client_minimum mods w t hb).1.last_call
unfolding generate_call
last_call-secret dump client_minimum mods w s t hb h =
    keyed_call-last_call dump (public_call client_minimum mods w s)
      (get_as_string general_auth_key s) (get_as_string general_auth_key t) hb
    ∙ ap (λ c. (keyed_call dump c (get_as_string general_auth_key t) hb).1.last_call)
        (public_call-secret client_minimum mods w s t h)

information-secret :
    (s t : Settings) (a b : Bytes) → SameButKey s t → a ≡ b → information s a ≡ information t b
unfolding information get_as_bool get
information-secret s t a b h e =
    ap (information s) e
    ∙ rw
        (
          information,
          h general_information_packet (other_key general_information_packet (omega arith)),
        )
        refl

-- The handshake tells of the key only what the backend does.
module _ {J : Type 0} (o : Outside J) (hs : Handshake J) (a b : Bytes) where
  with_key-secret :
      ((key ip : Bytes) → hs.post key a ip ≡ hs.post key b ip)
      → (h : ℕ) (key : Bytes) (why : Option Bytes) (stream : Bytes)
      → with_key o hs (some a) h key why stream ≡ with_key o hs (some b) h key why stream
  unfolding with_key ◌>>=◌ or_throw return
  with_key-secret alike h key (some why) stream = refl
  with_key-secret alike h key none stream =
      ap
        (λ (post : Bytes → Option Bytes). (do
          c ← fetch h
          ip ← or_throw (lookup (codes "ip") c.identifiers)
          ask_backend o hs h (post ip) stream))
        (fun_ext (λ ip. alike key ip))

  with_version-secret :
      ((key ip : Bytes) → hs.post key a ip ≡ hs.post key b ip)
      → (h : ℕ) (why : Option Bytes) (stream : Bytes)
      → with_version o hs (some a) h why stream ≡ with_version o hs (some b) h why stream
  unfolding with_version
  with_version-secret alike h (some why) stream = refl
  with_version-secret alike h none stream =
      ap
        (λ (k : Bytes → Bytes → M J (Bool × Bytes)). (do
          tcp_send o h (codes "A") false
          received ← tcp_rcv o h stream
          k received.0 received.1))
        (fun_ext (λ key. fun_ext (λ left. with_key-secret alike h key (key_refusal key) left)))

  authentication-secret :
      ((key ip : Bytes) → hs.post key a ip ≡ hs.post key b ip)
      → (h : ℕ) (ip stream : Bytes)
      → authentication o hs (some a) h ip stream ≡ authentication o hs (some b) h ip stream
  unfolding authentication
  authentication-secret alike h ip stream =
      ap
        (λ (k : Bytes → Bytes → M J (Bool × Bytes)). (do
          modify h (set_identifier (codes "ip") ip)
          if hs.starting
              then kick_out o hs h
                  (codes "The server is still starting, please try joining again later.") stream
              else (do
                received ← tcp_rcv o h stream
                if is_empty received.0
                    then kick_out o hs h (codes "Connection closed during version handshake")
                        received.1
                    else k received.0 received.1)))
        (fun_ext (λ packet. fun_ext (λ left.
          with_version-secret alike h (version_refusal hs.memory hs.min_version packet) left)))

-- What a connection is answered, in two servers with the keys `a` and `b`.
module _ {J : Type 0} (o : Outside J) (hs : Handshake J) (s t : Settings) (a b : Bytes) where
  answer_code-secret :
      get_as_string general_auth_key s ≡ some a
      → get_as_string general_auth_key t ≡ some b
      → ((key ip : Bytes) → hs.post key a ip ≡ hs.post key b ip)
      → (h : ℕ) (ip : Bytes) (info : Option Bytes) (code : ℕ) (stream : Bytes)
      → answer_code o hs s h ip info code stream ≡ answer_code o hs t h ip info code stream
  unfolding answer_code
  answer_code-secret has_a has_b alike h ip info code stream =
      rw (has_a, has_b, authentication-secret o hs a b alike h ip stream) refl

-- Two servers whose settings differ in the key alone, each with a text for it, once each has made the
-- text of a heartbeat: if the backend replies alike to both keys when a player authenticates, then
-- whatever comes over a connection, `Identify` does the same in both of them. What is sent to clients
-- tells nothing of the key but what the backend's replies to `Authentication` do.
pub identify-secret :
    {J : Type 0} (o : Outside J) (hs : Handshake J) (dump : Call → Bytes) (client_minimum : Version)
    (mods : ModTotals) (w v : World J) (s t : Settings) (a b : Bytes) (hb : Heartbeat) (h : ℕ)
    (ip stream : Bytes)
    → SameButKey s t
    → get_as_string general_auth_key s ≡ some a
    → get_as_string general_auth_key t ≡ some b
    → ((key ip : Bytes) → hs.post key a ip ≡ hs.post key b ip)
    → identify o hs s (generate_call dump client_minimum mods w s hb).1.last_call h ip stream v
      ≡ identify o hs t (generate_call dump client_minimum mods w t hb).1.last_call h ip stream v
unfolding identify close_connection
identify-secret o hs dump client_minimum mods w v s t a b hb h ip [] same has_a has_b alike = refl
identify-secret o hs dump client_minimum mods w v s t a b hb h ip (code ∷ stream) same has_a has_b
      alike =
    ap (λ info. catching (answer_code o hs s h ip info code stream) (close_connection o hs s h) v)
      (information-secret s t _ _ same (last_call-secret dump client_minimum mods w s t hb same))
    ∙ ap (λ m. catching m (close_connection o hs s h) v)
        (answer_code-secret o hs s t a b has_a has_b alike h ip _ code stream)
