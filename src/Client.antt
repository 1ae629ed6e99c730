-- ===== src/Client.antt =====
-- include/Client.h, include/VehicleData.h and src/Client.cpp: one player's connection. Each method
-- runs under the mutex of the fields that it touches, so it is one step here; `J` is the type of
-- JSON documents. A vehicle's id comes from the search for a free id, so it is not negative.
pub mod Cars
pub mod Disconnect
pub mod Tests
use beam_mp_server.Base.{
  ℕ, zero, suc, ◌+◌, ◌-◌, ◌/◌, Bool, true, false, List, [], ◌∷◌, ◌++◌, map, Option, none, some,
  ◌==◌, if◌then◌else◌, length, any_of, nat_eq,
}
use beam_mp_server.Base.Dict.{lookup, insert}
use beam_mp_server.Base.Ints.{ℤ, pos, negsuc, is_id}
use beam_mp_server.Base.Text.{Bytes, codes}
use beam_mp_server.OpenId.{open_id}

pub record Vehicle {ℓ} (J : Type ℓ) : Type ℓ where
  pub id : ℕ
  pub body : J

pub data DisconnectState : Type 0 where
  connected disconnecting disconnected : DisconnectState

-- `udp_addr` is `none` for the default endpoint; `missed` is the queue of packets, its front first;
-- `last_ping` is a time in seconds.
pub record Client {ℓ} (J : Type ℓ) : Type ℓ where
  pub id : ℤ
  pub unicycle_id : ℤ
  pub name : Bytes
  pub roles : Bytes
  pub is_guest : Bool
  pub is_synced : Bool
  pub is_syncing : Bool
  pub is_udp_connected : Bool
  pub missed : List Bytes
  pub identifiers : List (Bytes × Bytes)
  pub vehicles : List (Vehicle J)
  pub positions : List (ℕ × Bytes)
  pub state : DisconnectState
  pub socket_open : Bool
  pub udp_addr : Option ℕ
  pub magic : Bytes
  pub last_ping : ℕ

abbrev pub or_empty : Option Bytes → Bytes
or_empty none = []
or_empty (some s) = s

module _ {ℓ} {J : Type ℓ} where
  -- The members' initial values.
  unfoldable pub new_client : ℕ → Client J
  new_client now = record {
    id = negsuc 0;
    unicycle_id = negsuc 0;
    name = codes "Unknown Client";
    roles = [];
    is_guest = false;
    is_synced = false;
    is_syncing = false;
    is_udp_connected = false;
    missed = [];
    identifiers = [];
    vehicles = [];
    positions = [];
    state = connected;
    socket_open = true;
    udp_addr = none;
    magic = [];
    last_ping = now;
  }

  -- `find_if` and `erase` of the first vehicle with the id.
  unfoldable pub erase_vehicle : ℕ → List (Vehicle J) → List (Vehicle J)
  erase_vehicle ident [] = []
  erase_vehicle ident (v ∷ vs) = if v.id == ident then vs else v ∷ erase_vehicle ident vs

  unfoldable pub delete_car : ℕ → Client J → Client J
  delete_car ident c = record c { vehicles = erase_vehicle ident c.vehicles }

  unfoldable pub clear_cars : Client J → Client J
  clear_cars c = record c { vehicles = [] }

  abbrev pub vehicle_ids : List (Vehicle J) → List ℤ
  vehicle_ids = map (λ v. pos v.id)

  unfoldable pub get_open_car_id : Client J → ℕ
  get_open_car_id c = open_id (vehicle_ids c.vehicles)

  unfoldable pub add_new_car : ℕ → J → Client J → Client J
  add_new_car ident body c = record c {
    vehicles = c.vehicles ++ record { id = ident; body = body } ∷ [];
  }

  -- A vehicle with no position yet has the empty text.
  unfoldable pub get_car_position_raw : ℕ → Client J → Bytes
  get_car_position_raw ident c = or_empty (lookup ident c.positions)

  unfoldable pub set_car_position : ℕ → Bytes → Client J → Client J
  set_car_position ident body c = record c { positions = insert ident body c.positions }

  unfoldable pub find_vehicle : ℕ → List (Vehicle J) → Option J
  find_vehicle ident [] = none
  find_vehicle ident (v ∷ vs) = if v.id == ident then some v.body else find_vehicle ident vs

  -- The document, or `none` for JSON null with the attempt to delete the car.
  unfoldable pub get_car_data : ℕ → Client J → Option J × Client J
  get_car_data ident c = elim (find_vehicle ident c.vehicles) [
    | none ↦ (none, delete_car ident c)
    | some body ↦ (some body, c)
  ]

  unfoldable pub set_vehicle : ℕ → J → List (Vehicle J) → List (Vehicle J)
  set_vehicle ident body [] = []
  set_vehicle ident body (v ∷ vs) =
      if v.id == ident then record v { body = body } ∷ vs else v ∷ set_vehicle ident body vs

  unfoldable pub set_car_data : ℕ → J → Client J → Client J
  set_car_data ident body c = elim (find_vehicle ident c.vehicles) [
    | none ↦ delete_car ident c
    | some _ ↦ record c { vehicles = set_vehicle ident body c.vehicles }
  ]

  -- The unicycle does not count.
  unfoldable pub get_car_count : Client J → ℕ
  get_car_count c =
      if any_of (λ v. is_id c.unicycle_id v.id) c.vehicles
      then length c.vehicles - 1
      else length c.vehicles

  unfoldable pub enqueue_packet : Bytes → Client J → Client J
  enqueue_packet packet c = record c { missed = c.missed ++ packet ∷ [] }

  -- `Disconnect` by one thread, the others standing still: whether this call closed the socket.
  unfoldable pub disconnect : Client J → Bool × Client J
  disconnect c = elim c.state [
    | connected ↦ (true, record c { state = disconnected; socket_open = false })
    | _ ↦ (false, c)
  ]

  abbrev pub is_disconnected : Client J → Bool
  is_disconnected c = elim c.state [ connected ↦ false | _ ↦ true ]

  unfoldable pub update_ping_time : ℕ → Client J → Client J
  update_ping_time now c = record c { last_ping = now }

  abbrev pub seconds_since_last_ping : ℕ → Client J → ℕ
  seconds_since_last_ping now c = now - c.last_ping
