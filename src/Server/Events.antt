-- ===== src/Server/Events.antt =====
-- Which packets of a client are ignored, and which names of events it can trigger.
use beam_mp_server.Base.{
  ℕ, ◌^◌, ◌<◌, ◌≡◌, refl, ap, sym, subst, suc, ◌-◌, ◌+◌, take, drop, ◌∙◌, Bool-cases, inl, inr,
  Bool, true, false, ◌&&◌, ◌||◌, List, [], ◌∷◌, ◌++◌, Option, none, some, arith, leb, ◌==◌,
  if◌then◌else◌, length, any_of, list_beq, list_beq_iff, nat_eq, take_append,
}
use beam_mp_server.Base.Dict.{lookup}
use beam_mp_server.Base.Ints.{is_id}
use beam_mp_server.Base.Text.{
  Bytes, codes, find, find_from, substr, up_to, find_first, find_absent, Free,
}
use beam_mp_server.Ids.{get_pid_vid, after_sep}
use beam_mp_server.Ids.Laws.{print_ids, get_pid_vid-print_ids}
use beam_mp_server.Client.{Client}
use beam_mp_server.World.{
  Outside, World, ok, ◌>>=◌, ◌>>◌, done, or_throw, lock, trigger, increment_pps, event, int_arg,
  text_arg,
}
use beam_mp_server.Vehicles.Ownership.{print_ids-Free}
use beam_mp_server.Server.{
  excluded, event_name, event_data, is_excluded, handle_event, sender_vid, pass_on, relay,
  pass_position, position, parse_code, parse_from, parse_packet,
}

-- The events that the server raises by itself: for plugins, on the way of a player into it and out
-- of it, in the chat, and for vehicles.
abbrev pub own_events : List Bytes
own_events =
    codes "onInit"
    ∷ codes "onShutdown"
    ∷ codes "onFileChanged"
    ∷ codes "onConsoleInput"
    ∷ codes "onPlayerAuth"
    ∷ codes "postPlayerAuth"
    ∷ codes "onPlayerConnecting"
    ∷ codes "onPlayerJoining"
    ∷ codes "onPlayerJoin"
    ∷ codes "onPlayerDisconnect"
    ∷ codes "onChatMessage"
    ∷ codes "postChatMessage"
    ∷ codes "onVehicleSpawn"
    ∷ codes "postVehicleSpawn"
    ∷ codes "onVehicleEdited"
    ∷ codes "postVehicleEdited"
    ∷ codes "onVehicleReset"
    ∷ codes "onVehiclePaintChanged"
    ∷ codes "onVehicleDeleted"
    ∷ []

abbrev pub is_own : Bytes → Bool
is_own name = any_of (list_beq name) own_events

abbrev covers : List Bytes → List Bytes → Bool
covers ts [] = true
covers ts (s ∷ ss) = any_of (list_beq s) ts && covers ts ss

any_of-covers :
    (name : Bytes) (ss ts : List Bytes)
    → covers ts ss ≡ true
    → any_of (list_beq name) ss ≡ true
    → any_of (list_beq name) ts ≡ true
any_of-covers name [] ts h e = absurd (ground arith)
any_of-covers name (s ∷ ss) ts h e = elim (Bool-cases (list_beq name s)) [
  | inl same ↦
      subst (λ x. any_of (list_beq x) ts ≡ true) (sym ((list_beq_iff name s).0 same)) (ground arith)
  | inr other ↦ any_of-covers name ss ts (ground arith) (ground arith)
]

all_excluded : covers excluded own_events ≡ true
unfolding excluded
all_excluded = refl

none_else : covers own_events excluded ≡ true
unfolding excluded
none_else = refl

is_excluded-own : (name : Bytes) → is_excluded name ≡ is_own name
unfolding is_excluded
is_excluded-own name = elim (Bool-cases (is_own name)) [
  | inl own ↦ any_of-covers name own_events excluded all_excluded own ∙ sym own
  | inr other ↦ elim (Bool-cases (any_of (list_beq name) excluded)) [
    | inl e ↦ e ∙ sym (any_of-covers name excluded own_events none_else e)
    | inr n ↦ n ∙ sym other
  ]
]

drop_past : (c : ℕ) (s rest : Bytes) → drop (suc (length s)) (s ++ c ∷ rest) ≡ rest
drop_past c [] rest = refl
drop_past c (b ∷ s) rest = drop_past c s rest

event_name-packet :
    (z : ℕ) (name body : Bytes)
    → Free b':' name
    → (event_name (b'E' ∷ z ∷ name ++ b':' ∷ body) ≡ name)
      × (event_data (b'E' ∷ z ∷ name ++ b':' ∷ body) ≡ body)
unfolding event_name event_data find_from up_to after_sep
event_name-packet z name body h =
    let back : length name + 2 - 2 ≡ length name = omega arith in
    let on : length name + 2 + 1 ≡ suc (suc (suc (length name))) = omega arith in
    rw (find_first b':' name body h) (
      ap (λ n. take n (name ++ b':' ∷ body)) back ∙ take_append name (b':' ∷ body),
      ap (λ n. drop n (b'E' ∷ z ∷ name ++ b':' ∷ body)) on ∙ drop_past b':' name body,
    )

event_name-bare :
    (z : ℕ) (name : Bytes)
    → Free b':' name
    → (event_name (b'E' ∷ z ∷ name) ≡ name) × (event_data (b'E' ∷ z ∷ name) ≡ b'E' ∷ z ∷ name)
unfolding event_name event_data find_from up_to after_sep
event_name-bare z name h = rw (find_absent b':' name h) (refl, refl)

-- The world after an event of a client, which its own events leave as it was.
abbrev pub raised : {J : Type 0} → Client J → Bytes → Bytes → World J → World J
raised c name body w =
    if is_own name
    then w
    else record w { trace = event name (int_arg c.id ∷ text_arg body ∷ []) ∷ w.trace }

handle_event-named :
    {J : Type 0} (o : Outside J) (c : Client J) (z : ℕ) (rest name body : Bytes) (w : World J)
    → (event_name (b'E' ∷ z ∷ rest) ≡ name) × (event_data (b'E' ∷ z ∷ rest) ≡ body)
    → handle_event o c (b'E' ∷ z ∷ rest) w ≡ (ok tt, raised c name body w)
unfolding handle_event ◌>>◌ done trigger
handle_event-named o c z rest name body w (n, d) = elim (Bool-cases (is_own name)) [
  | inl own ↦ rw (n, d, is_excluded-own name, own) (ground arith)
  | inr other ↦ rw (n, d, is_excluded-own name, other) (ground arith)
]

-- An event packet `E:name:data`, where the name has no colon and the data may have some: if the name
-- is one of the events that the server raises by itself, the packet changes nothing; otherwise the
-- event of that name is triggered once, with the client's id and the data, and nothing else changes.
-- Without a second colon it is the same, with the whole packet as the data.
pub handle_event_lem :
    {J : Type 0} (o : Outside J) (c : Client J) (z : ℕ) (name body : Bytes) (w : World J)
    → Free b':' name
    → (handle_event o c (b'E' ∷ z ∷ name ++ b':' ∷ body) w ≡ (ok tt, raised c name body w))
      × (handle_event o c (b'E' ∷ z ∷ name) w ≡ (ok tt, raised c name (b'E' ∷ z ∷ name) w))
handle_event_lem o c z name body w h = (
  handle_event-named o c z (name ++ b':' ∷ body) name body w (event_name-packet z name body h),
  handle_event-named o c z name name (b'E' ∷ z ∷ name) w (event_name-bare z name h),
)

-- The codes of the packets that are served over TCP only.
abbrev pub is_tcp_only : ℕ → Bool
is_tcp_only code = code == b'H' || code == b'O' || code == b'C' || code == b'E'

-- The codes of the packets that carry the ids of a vehicle: `V` to `Z`.
abbrev pub has_ids : ℕ → Bool
has_ids code = leb b'V' code && leb code b'Z'

module _ {J : Type 0} (o : Outside J) (h : ℕ) where
  parse_from_udp :
      (code : ℕ) (rest : Bytes) (c : Option (Client J)) (w : World J)
      → is_tcp_only code ≡ true
      → (parse_from o h c (code ∷ rest) true w).1 ≡ w
  unfolding parse_from parse_code done
  parse_from_udp code rest none w e = refl
  parse_from_udp code rest (some c) w e = ground arith

  -- A datagram that asks for the sync, or for what a vehicle, chat or event packet asks for,
  -- changes nothing and sends nothing.
  parse_packet_udp :
      (code : ℕ) (rest : Bytes) (w : World J)
      → is_tcp_only code ≡ true
      → (parse_packet o h (code ∷ rest) true w).1 ≡ w
  unfolding parse_packet lock ◌>>=◌
  parse_packet_udp code rest w e = parse_from_udp code rest (lookup h w.store) w e

ids_read :
    (p v : ℕ) (rest : Bytes)
    → p < 2 ^ 31
    → v < 2 ^ 31
    → get_pid_vid (up_to (find b':' (print_ids p v ++ b':' ∷ rest)) (print_ids p v ++ b':' ∷ rest))
      ≡ some (p, v)
unfolding up_to
ids_read p v rest hp hv =
    rw
      (
        find_first b':' (print_ids p v) rest (print_ids-Free p v),
        take_append (print_ids p v) (b':' ∷ rest),
      )
      (get_pid_vid-print_ids p v hp hv)

substr_three : (x y z : ℕ) (s : Bytes) → substr 3 (x ∷ y ∷ z ∷ s) ≡ some s
unfolding substr
substr_three x y z s = ground arith

module _ {J : Type 0} where
  sender_vid-print_ids :
      (c : Client J) (x y z p v : ℕ) (rest : Bytes)
      → p < 2 ^ 31
      → v < 2 ^ 31
      → sender_vid c (x ∷ y ∷ z ∷ print_ids p v ++ b':' ∷ rest)
        ≡ some (if is_id c.id p then some v else none)
  unfolding sender_vid
  sender_vid-print_ids c x y z p v rest hp hv =
      rw (substr_three x y z (print_ids p v ++ b':' ∷ rest), ids_read p v rest hp hv)

  -- What a packet left alone: all but the count of packets.
  abbrev pub SendsNothing : World J → World J → Type 0
  SendsNothing w u = (u.store ≡ w.store) × (u.members ≡ w.members) × (u.trace ≡ w.trace)

module _ {J : Type 0} (o : Outside J) (h : ℕ) where
  relay_spoofed :
      (c : Client J) (s : Bytes) (w : World J)
      → sender_vid c s ≡ some none
      → SendsNothing w (relay o h c s w).1
  unfolding relay ◌>>=◌ or_throw pass_on done
  relay_spoofed c s w n = rw n (refl, refl, refl)

  position_spoofed :
      (c : Client J) (s : Bytes) (w : World J)
      → sender_vid c s ≡ some none
      → SendsNothing w (position o h c s w).1
  unfolding position ◌>>=◌ ◌>>◌ or_throw pass_position increment_pps done
  position_spoofed c s w n = rw n (refl, refl, refl)

  parse_code_spoofed :
      (code : ℕ) (c : Client J) (s : Bytes) (udp : Bool) (w : World J)
      → has_ids code ≡ true
      → sender_vid c s ≡ some none
      → SendsNothing w (parse_code o code h c s udp w).1
  unfolding parse_code
  parse_code_spoofed code c s udp w e n =
      ground (arith, relay_spoofed c s w n, position_spoofed c s w n)

  -- A packet to move a vehicle (`V` to `Z`) whose first id is not the id of the client that sent
  -- it, both ids fitting an `int`: no client is changed and nothing is sent to any.
  pub parse_packet_spoofed :
      (code x y p v : ℕ) (rest : Bytes) (udp : Bool) (c : Client J) (w : World J)
      → has_ids code ≡ true
      → p < 2 ^ 31
      → v < 2 ^ 31
      → lookup h w.store ≡ some c
      → is_id c.id p ≡ false
      → SendsNothing w (parse_packet o h (code ∷ x ∷ y ∷ print_ids p v ++ b':' ∷ rest) udp w).1
  unfolding parse_packet lock ◌>>=◌ parse_from
  parse_packet_spoofed code x y p v rest udp c w e hp hv found other = rw found (
      parse_code_spoofed code c (code ∷ x ∷ y ∷ print_ids p v ++ b':' ∷ rest) udp w e
        (rw (sender_vid-print_ids c code x y p v rest hp hv, other) refl))
