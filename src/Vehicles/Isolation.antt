-- ===== src/Vehicles/Isolation.antt =====
-- A vehicle packet changes the vehicles of its sender alone.
use beam_mp_server.Base.{ℕ, Bool, true, false, Option, none, some, nat_eq}
use beam_mp_server.Base.Text.{Bytes}
use beam_mp_server.Client.{Client}
use beam_mp_server.World.{Outside}
use beam_mp_server.World.Respects.{Respects}
use beam_mp_server.Network.Frame.{Frame, frame_rules, Frame-Quiet}
use beam_mp_server.Network.Quiet.{trigger-Quiet, respond-Quiet, send_to_all-Quiet}
use beam_mp_server.Vehicles.{
  should_spawn, confirm_spawn, spawn_car, spawn, car_data, apply_document, apply, refuse_edit,
  allow_edit, edit, delete, reset, set_paints, paint_car, paint, act_on, parse_vehicle_code,
  parse_vehicle,
}

pub ruleset own_rules = (frame_rules, Frame-Quiet, trigger-Quiet, respond-Quiet, send_to_all-Quiet)

module _ {J : Type 0} (o : Outside J) (h : ℕ) where
  should_spawn-Frame : (s : Bytes) (id : ℕ) → Respects (Frame h) (should_spawn o h s id)
  unfolding should_spawn
  should_spawn-Frame s id = search own_rules depth 20

  confirm_spawn-Frame :
      (c : Client J) (id : ℕ) (s : Bytes) (b : Bool) (doc : Option J)
      → Respects (Frame h) (confirm_spawn o h c id s b doc)
  unfolding confirm_spawn
  confirm_spawn-Frame c id s true (some doc) = search own_rules depth 20
  confirm_spawn-Frame c id s true none = search own_rules depth 20
  confirm_spawn-Frame c id s false doc = search own_rules depth 20

  spawn_car-Frame :
      (c : Client J) (id : ℕ) (s p : Bytes) → Respects (Frame h) (spawn_car o h c id s p)
  unfolding spawn_car
  spawn_car-Frame c id s p = search (own_rules, should_spawn-Frame, confirm_spawn-Frame) depth 20

  spawn-Frame : (s : Bytes) → Respects (Frame h) (spawn o h s)
  unfolding spawn
  spawn-Frame s = search (own_rules, spawn_car-Frame) depth 20

  car_data-Frame : (vid : ℕ) → Respects (Frame h) (car_data o h vid)
  unfolding car_data
  car_data-Frame vid = search own_rules depth 20

  apply_document-Frame :
      (vid : ℕ) (old doc : Option J) → Respects (Frame h) (apply_document o h vid old doc)
  unfolding apply_document
  apply_document-Frame vid none doc = search own_rules depth 20
  apply_document-Frame vid (some old) none = search own_rules depth 20
  apply_document-Frame vid (some old) (some doc) = search own_rules depth 20

  apply-Frame : (vid : ℕ) (s : Bytes) (at : Option ℕ) → Respects (Frame h) (apply o h vid s at)
  unfolding apply
  apply-Frame vid s none = search own_rules depth 20
  apply-Frame vid s (some at) = search (own_rules, car_data-Frame, apply_document-Frame) depth 20

  refuse_edit-Frame : (c : Client J) (vid : ℕ) → Respects (Frame h) (refuse_edit o h c vid)
  unfolding refuse_edit
  refuse_edit-Frame c vid = search own_rules depth 20

  allow_edit-Frame : (vid : ℕ) (s : Bytes) → Respects (Frame h) (allow_edit o h vid s)
  unfolding allow_edit
  allow_edit-Frame vid s = search (own_rules, apply-Frame) depth 20

  edit-Frame : (c : Client J) (vid : ℕ) (s : Bytes) → Respects (Frame h) (edit o h c vid s)
  unfolding edit
  edit-Frame c vid s = search (own_rules, allow_edit-Frame, refuse_edit-Frame) depth 20

  delete-Frame : (c : Client J) (vid : ℕ) (s : Bytes) → Respects (Frame h) (delete o h c vid s)
  unfolding delete
  delete-Frame c vid s = search own_rules depth 20

  reset-Frame :
      (c : Client J) (vid : ℕ) (s : Bytes) (at : Option ℕ)
      → Respects (Frame h) (reset o h c vid s at)
  unfolding reset
  reset-Frame c vid s none = search own_rules depth 20
  reset-Frame c vid s (some at) = search own_rules depth 20

  set_paints-Frame :
      (vid : ℕ) (car : J) (vcf paints : Option J) (s : Bytes)
      → Respects (Frame h) (set_paints o h vid car vcf paints s)
  unfolding set_paints
  set_paints-Frame vid car none paints s = search own_rules depth 20
  set_paints-Frame vid car (some vcf) none s = search own_rules depth 20
  set_paints-Frame vid car (some vcf) (some paints) s = search own_rules depth 20

  paint_car-Frame :
      (vid : ℕ) (car : Option J) (s : Bytes) → Respects (Frame h) (paint_car o h vid car s)
  unfolding paint_car
  paint_car-Frame vid none s = search own_rules depth 20
  paint_car-Frame vid (some car) s = search (own_rules, set_paints-Frame) depth 20

  paint-Frame :
      (c : Client J) (vid : ℕ) (s : Bytes) (at : Option ℕ)
      → Respects (Frame h) (paint o h c vid s at)
  unfolding paint
  paint-Frame c vid s none = search own_rules depth 20
  paint-Frame c vid s (some at) = search (own_rules, car_data-Frame, paint_car-Frame) depth 20

  act_on-Frame :
      (code : ℕ) (c : Client J) (s : Bytes) (vid : Option ℕ)
      → Respects (Frame h) (act_on o code h c s vid)
  unfolding act_on
  act_on-Frame code c s none = search own_rules depth 20
  act_on-Frame code c s (some vid) =
      search (own_rules, edit-Frame, delete-Frame, reset-Frame, paint-Frame) depth 20

  parse_vehicle_code-Frame :
      (code : ℕ) (s : Bytes) → Respects (Frame h) (parse_vehicle_code o code h s)
  unfolding parse_vehicle_code
  parse_vehicle_code-Frame code s = search (own_rules, spawn-Frame, act_on-Frame) depth 20

  pub parse_vehicle-Frame : (s : Bytes) → Respects (Frame h) (parse_vehicle o h s)
  unfolding parse_vehicle
  parse_vehicle-Frame s = search (own_rules, parse_vehicle_code-Frame) depth 20
