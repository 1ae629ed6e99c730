-- ===== src/Vehicles.antt =====
-- `TServer::ParseVehicle` and what it calls, in src/TServer.cpp: the `O` packets, by which a client
-- spawns, edits, deletes, resets, moves and paints its vehicles.
pub mod Isolation
pub mod Ownership
use beam_mp_server.Base.{
  ℕ, zero, suc, ◌+◌, Bool, true, false, not, ◌&&◌, ◌||◌, List, [], ◌∷◌, ◌++◌, Option, none, some,
  ltb, ◌==◌, if◌then◌else◌, length, drop, any_of, list_beq,
}
use beam_mp_server.Base.Ints.{ℤ, pos, negsuc, is_id, is_negative, below}
use beam_mp_server.Base.Decimal.{to_string}
use beam_mp_server.Base.Text.{Bytes, codes, find, find_from, up_to}
use beam_mp_server.Ids.{get_pid_vid}
use beam_mp_server.Client.{
  Client, get_open_car_id, add_new_car, get_car_data, set_car_data, delete_car, get_car_count,
}
use beam_mp_server.World.{
  Json, Outside, World, M, ◌>>=◌, ◌>>◌, return, done, or_throw, ask, fetch, modify, trigger,
  print_int, Arg, int_arg, text_arg, bool_arg, vetoes,
}
use beam_mp_server.Network.{respond, send_to_all}

-- The vehicle that a packet speaks of, if its ids can be read and the first is the client's own.
abbrev pub own_vid : ℤ → Option (ℕ × ℕ) → Option ℕ
own_vid id none = none
own_vid id (some (pid, vid)) = if is_id id pid then some vid else none

-- The ids in front of the first colon after the first byte.
unfoldable pub ids_of : Bytes → Option (ℕ × ℕ)
ids_of body = get_pid_vid (up_to (find_from b':' 1 body) body)

abbrev pub is_text : Bytes → Option Bytes → Bool
is_text t none = false
is_text t (some s) = list_beq s t

-- `byte_at` is 0 past the end, where the code does not look.
abbrev pub byte_at : ℕ → Bytes → ℕ
byte_at i [] = 0
byte_at zero (c ∷ s) = c
byte_at (suc i) (c ∷ s) = byte_at i s

-- `find`, with 0 for a byte that is not there.
abbrev pub or_zero : Option ℕ → ℕ
or_zero none = 0
or_zero (some i) = i

abbrev pub names_vehicle : ℕ → Bool
names_vehicle code = code == b'c' || code == b'd' || code == b'r' || code == b't' || code == b'p'

module _ {J : Type 0} (o : Outside J) where
  abbrev pub member_of : Bytes → Option J → Option J
  member_of key none = none
  member_of key (some j) = o.json.member key j

  abbrev pub text_of : Option J → Option Bytes
  text_of none = none
  text_of (some j) = o.json.as_string j

  unfoldable pub is_unicycle : Bytes → Bool
  is_unicycle car_json =
      is_text (codes "unicycle") (text_of (member_of (codes "jbm") (o.json.parse car_json)))

  abbrev set_unicycle : ℤ → Client J → Client J
  set_unicycle i c = record c { unicycle_id = i }

  unfoldable pub should_spawn : ℕ → Bytes → ℕ → M J Bool
  should_spawn h car_json id = do
    c ← fetch h
    if is_unicycle car_json && is_negative c.unicycle_id
        then (do modify h (set_unicycle (pos id)); return true)
        else return (below (get_car_count c) o.max_cars)

  abbrev pub vehicle_args : Client J → ℕ → List Arg
  vehicle_args c vid = int_arg c.id ∷ int_arg (pos vid) ∷ []

  abbrev pub vehicle_text_args : Client J → ℕ → Bytes → List Arg
  vehicle_text_args c vid s = int_arg c.id ∷ int_arg (pos vid) ∷ text_arg s ∷ []

  abbrev pub ids_text : Client J → ℕ → Bytes
  ids_text c vid = print_int c.id ++ codes "-" ++ to_string vid

  abbrev pub destroy_packet : Client J → ℕ → Bytes
  destroy_packet c vid = codes "Od:" ++ ids_text c vid

  abbrev pub spawn_packet : Client J → ℕ → Bytes → Bytes
  spawn_packet c car_id car_json =
      codes "Os:"
      ++ c.roles
      ++ codes ":"
      ++ c.name
      ++ codes ":"
      ++ ids_text c car_id
      ++ codes ":"
      ++ car_json

  -- The car that may be spawned, or the answer that removes it again; whether it was spawned.
  unfoldable pub confirm_spawn : ℕ → Client J → ℕ → Bytes → Bool → Option J → M J Bool
  confirm_spawn h c car_id packet true (some doc) = do
    modify h (add_new_car car_id doc)
    send_to_all o none packet true true
    return true
  confirm_spawn h c car_id packet allowed doc = do
    respond o h packet true false
    trigger o (codes "onVehicleDeleted") (vehicle_args c car_id)
    respond o h (destroy_packet c car_id) true false
    return false

  unfoldable pub spawn_car : ℕ → Client J → ℕ → Bytes → Bytes → M J (Unit {0})
  spawn_car h c car_id car_json packet = do
    results ← trigger o (codes "onVehicleSpawn") (vehicle_text_args c car_id (drop 3 packet))
    should ← should_spawn h car_json car_id
    confirmed ←
        confirm_spawn h c car_id packet (should && not (any_of vetoes results))
          (o.json.parse car_json)
    trigger o (codes "postVehicleSpawn")
        (bool_arg confirmed ∷ vehicle_text_args c car_id (drop 3 packet))
    done

  unfoldable pub spawn : ℕ → Bytes → M J (Unit {0})
  spawn h packet = do
    c ← fetch h
    if byte_at 3 packet == b'0'
        then spawn_car h c (get_open_car_id c) (drop 5 packet)
            (spawn_packet c (get_open_car_id c) (drop 5 packet))
        else done

  unfoldable pub car_data : ℕ → ℕ → M J (Option J)
  car_data h vid = do
    c ← fetch h
    modify h (λ c. (get_car_data vid c).1)
    return (get_car_data vid c).0

  -- The new document of a car, once the packet's body and the old document are known.
  unfoldable pub apply_document : ℕ → ℕ → Option J → Option J → M J (Unit {0})
  apply_document h vid none doc = done
  apply_document h vid (some old) none = done
  apply_document h vid (some old) (some doc) =
      if o.json.is_null old then done else modify h (set_car_data vid doc)

  unfoldable pub apply : ℕ → ℕ → Bytes → Option ℕ → M J (Unit {0})
  apply h vid packet none = done
  apply h vid packet (some at) = do
    old ← car_data h vid
    apply_document h vid old (o.json.parse (drop at packet))

  -- The edit that is refused deletes the car.
  unfoldable pub refuse_edit : ℕ → Client J → ℕ → M J Bool
  refuse_edit h c vid = do
    if is_id c.unicycle_id vid then modify h (set_unicycle (negsuc 0)) else done
    send_to_all o none (destroy_packet c vid) true true
    trigger o (codes "onVehicleDeleted") (vehicle_args c vid)
    modify h (delete_car vid)
    return false

  unfoldable pub allow_edit : ℕ → ℕ → Bytes → M J Bool
  allow_edit h vid packet = do
    send_to_all o (some h) packet false true
    apply h vid packet (find b'{' packet)
    return true

  unfoldable pub edit : ℕ → Client J → ℕ → Bytes → M J (Unit {0})
  edit h c vid packet = do
    results ← trigger o (codes "onVehicleEdited") (vehicle_text_args c vid (drop 3 packet))
    allowed ←
        (if (not (is_id c.unicycle_id vid)
              || is_unicycle (drop (or_zero (find b'{' packet)) packet))
            && not (any_of vetoes results)
          then allow_edit h vid packet
          else refuse_edit h c vid)
    trigger o (codes "postVehicleEdited")
        (bool_arg allowed ∷ vehicle_text_args c vid (drop 3 packet))
    done

  unfoldable pub delete : ℕ → Client J → ℕ → Bytes → M J (Unit {0})
  delete h c vid packet = do
    if is_id c.unicycle_id vid then modify h (set_unicycle (negsuc 0)) else done
    send_to_all o none packet true true
    trigger o (codes "onVehicleDeleted") (vehicle_args c vid)
    modify h (delete_car vid)

  -- A reset needs a document in its body.
  unfoldable pub reset : ℕ → Client J → ℕ → Bytes → Option ℕ → M J (Unit {0})
  reset h c vid packet none = done
  reset h c vid packet (some at) = do
    trigger o (codes "onVehicleReset") (vehicle_text_args c vid (drop at (drop 3 packet)))
    send_to_all o (some h) packet false true

  -- The paints of a document that has paints.
  unfoldable pub set_paints : ℕ → ℕ → J → Option J → Option J → Bytes → M J (Unit {0})
  set_paints h vid car none paints body = done
  set_paints h vid car (some vcf) none body = done
  set_paints h vid car (some vcf) (some paints) body =
      if o.json.is_object vcf && o.json.is_array paints
      then (do
        new ← or_throw (o.json.parse body)
        modify h (
            set_car_data vid
              (o.json.set_member (codes "vcf") (o.json.set_member (codes "paints") new vcf) car)))
      else done

  unfoldable pub paint_car : ℕ → ℕ → Option J → Bytes → M J (Unit {0})
  paint_car h vid none body = done
  paint_car h vid (some car) body =
      if o.json.is_null car
      then done
      else set_paints h vid car (o.json.member (codes "vcf") car)
          (member_of (codes "paints") (o.json.member (codes "vcf") car)) body

  unfoldable pub paint : ℕ → Client J → ℕ → Bytes → Option ℕ → M J (Unit {0})
  paint h c vid packet none = done
  paint h c vid packet (some at) = do
    trigger o (codes "onVehiclePaintChanged") (vehicle_text_args c vid (drop at (drop 3 packet)))
    send_to_all o (some h) packet false true
    car ← car_data h vid
    paint_car h vid car (drop at (drop 3 packet))

  -- The packets that name a vehicle of the client's own.
  unfoldable pub act_on : ℕ → ℕ → Client J → Bytes → Option ℕ → M J (Unit {0})
  act_on code h c packet none = done
  act_on code h c packet (some vid) =
      if code == b'c'
      then edit h c vid packet
      else if code == b'd'
      then delete h c vid packet
      else if code == b'r'
      then reset h c vid packet (find b'{' (drop 3 packet))
      else if code == b't'
      then send_to_all o (some h) packet false true
      else paint h c vid packet (find b'[' (drop 3 packet))

  unfoldable pub parse_vehicle_code : ℕ → ℕ → Bytes → M J (Unit {0})
  parse_vehicle_code code h packet =
      if code == b's'
      then spawn h packet
      else if code == b'm'
      then send_to_all o (some h) packet false true
      else if names_vehicle code
      then (do c ← fetch h; act_on code h c packet (own_vid c.id (ids_of (drop 3 packet))))
      else done

  unfoldable pub parse_vehicle : ℕ → Bytes → M J (Unit {0})
  parse_vehicle h packet =
      if ltb (length packet) 6 then done else parse_vehicle_code (byte_at 1 packet) h packet
