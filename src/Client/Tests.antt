-- ===== src/Client/Tests.antt =====
-- The theorems about clients at concrete inputs.
use beam_mp_server.Base.{ℕ, ◌≤◌, ◌≡◌, refl, [], ◌∷◌, some}
use beam_mp_server.Base.Ints.{pos}
use beam_mp_server.OpenId.{open_id, passes, pass, largest}
use beam_mp_server.Client.{
  Client, new_client, add_new_car, get_open_car_id, find_vehicle, delete_car, get_car_data,
  get_car_count,
}
use beam_mp_server.Client.Cars.{Distinct, add_new_car-open, cars_map}
use beam_mp_server.Client.Disconnect.{
  Reach, start, next, exchanges, closes, initial, exchange, close_socket, disconnect_single_winner,
}

-- Cars 0 and 2 are there, and 2 is the unicycle.
abbrev driver : Client ℕ
unfolding new_client
driver = record (new_client 0) {
  unicycle_id = pos 2;
  vehicles = record { id = 0; body = 5 } ∷ record { id = 2; body = 6 } ∷ [];
}

driver-Distinct : Distinct driver.vehicles
unfolding new_client
driver-Distinct = (refl, (refl, tt))

driver_tests :
    (get_open_car_id driver ≡ 1) × (get_car_count driver ≡ 1) × ((get_car_data 2 driver).0 ≡ some 6)
unfolding new_client get_open_car_id open_id passes pass largest get_car_count get_car_data
    find_vehicle
driver_tests = (refl, refl, refl)

add_new_car-open_example : Distinct (add_new_car (get_open_car_id driver) 7 driver).vehicles
add_new_car-open_example = (add_new_car-open driver 7 driver-Distinct).0

cars_map_example : (get_car_data 2 (delete_car 0 driver)).0 ≡ (get_car_data 2 driver).0
cars_map_example = (cars_map 0 9 driver driver-Distinct).3 2

-- The call 1 wins, and the call 2 comes in between.
raced : Reach initial (exchange 2 (close_socket 1 (exchange 1 initial)))
unfolding exchange close_socket
raced = next (next (next start (exchanges 1 refl)) (closes 1 refl)) (exchanges 2 refl)

disconnect_single_winner_example : (exchange 2 (close_socket 1 (exchange 1 initial))).closings ≤ 1
disconnect_single_winner_example =
    (disconnect_single_winner (exchange 2 (close_socket 1 (exchange 1 initial))) raced).0
