-- ===== src/Client/Cars.antt =====
-- The vehicles of a client.
use beam_mp_server.Base.{
  ℕ, suc, ◌-◌, ◌≡◌, refl, ap, inl, inr, true, false, ◌||◌, List, [], ◌∷◌, ◌++◌, none, some, arith,
  ◌==◌, if◌then◌else◌, length, any_of, Option-cases, nat_eq,
}
use beam_mp_server.Base.Ints.{ℤ, pos, negsuc, is_id}
use beam_mp_server.OpenId.{open_id}
use beam_mp_server.OpenId.Laws.{is_taken, open_id_least}
use beam_mp_server.Client.{
  Vehicle, Client, erase_vehicle, delete_car, vehicle_ids, get_open_car_id, add_new_car,
  find_vehicle, get_car_data, set_vehicle, set_car_data, get_car_count,
}

module _ {ℓ} {J : Type ℓ} where
  -- No two vehicles have one id.
  abbrev pub Distinct : List (Vehicle J) → Type 0
  Distinct [] = Unit
  Distinct (v ∷ vs) = (is_taken (vehicle_ids vs) v.id ≡ false) × Distinct vs

  is_taken-append :
      (vs : List (Vehicle J)) (w : Vehicle J) (n : ℕ)
      → is_taken (vehicle_ids (vs ++ w ∷ [])) n ≡ (is_taken (vehicle_ids vs) n || (w.id == n))
  is_taken-append [] w n = ground arith
  is_taken-append (v ∷ vs) w n = ground (arith, is_taken-append vs w n)

  Distinct-append :
      (vs : List (Vehicle J)) (w : Vehicle J)
      → Distinct vs
      → is_taken (vehicle_ids vs) w.id ≡ false
      → Distinct (vs ++ w ∷ [])
  Distinct-append [] w d h = (refl, tt)
  Distinct-append (v ∷ vs) w d h = ground (arith, is_taken-append vs w v.id, Distinct-append vs w)

  is_taken-erase :
      (ident n : ℕ) (vs : List (Vehicle J))
      → is_taken (vehicle_ids vs) n ≡ false
      → is_taken (vehicle_ids (erase_vehicle ident vs)) n ≡ false
  unfolding erase_vehicle
  is_taken-erase ident n [] h = refl
  is_taken-erase ident n (v ∷ vs) h = ground (arith, is_taken-erase ident n vs)

  Distinct-erase :
      (ident : ℕ) (vs : List (Vehicle J)) → Distinct vs → Distinct (erase_vehicle ident vs)
  unfolding erase_vehicle
  Distinct-erase ident [] d = tt
  Distinct-erase ident (v ∷ vs) d =
      ground (arith, Distinct-erase ident vs, is_taken-erase ident v.id vs)

  ids-set_vehicle :
      (ident : ℕ) (body : J) (vs : List (Vehicle J))
      → vehicle_ids (set_vehicle ident body vs) ≡ vehicle_ids vs
  unfolding set_vehicle
  ids-set_vehicle ident body [] = refl
  ids-set_vehicle ident body (v ∷ vs) = ground (arith, ids-set_vehicle ident body vs)

  Distinct-set :
      (ident : ℕ) (body : J) (vs : List (Vehicle J))
      → Distinct vs
      → Distinct (set_vehicle ident body vs)
  unfolding set_vehicle
  Distinct-set ident body [] d = tt
  Distinct-set ident body (v ∷ vs) d =
      ground (arith, Distinct-set ident body vs, ids-set_vehicle ident body vs)

  find-append :
      (n : ℕ) (vs : List (Vehicle J)) (w : Vehicle J)
      → find_vehicle n (vs ++ w ∷ []) ≡ (
          if is_taken (vehicle_ids vs) n
          then find_vehicle n vs
          else if w.id == n
          then some w.body
          else none)
  unfolding find_vehicle
  find-append n [] w = refl
  find-append n (v ∷ vs) w = ground (arith, find-append n vs w)

  -- A vehicle that is not there is not found, and erasing it changes nothing.
  pub find_free :
      (n : ℕ) (vs : List (Vehicle J))
      → is_taken (vehicle_ids vs) n ≡ false
      → (find_vehicle n vs ≡ none) × (erase_vehicle n vs ≡ vs)
  unfolding find_vehicle erase_vehicle
  find_free n [] h = (refl, refl)
  find_free n (v ∷ vs) h = ground (arith, find_free n vs)

  find-none_free :
      (n : ℕ) (vs : List (Vehicle J)) → find_vehicle n vs ≡ none → erase_vehicle n vs ≡ vs
  unfolding find_vehicle erase_vehicle
  find-none_free n [] h = refl
  find-none_free n (v ∷ vs) h = ground (arith, find-none_free n vs)

  find-erase :
      (n m : ℕ) (vs : List (Vehicle J))
      → Distinct vs
      → find_vehicle m (erase_vehicle n vs) ≡ (if n == m then none else find_vehicle m vs)
  unfolding find_vehicle erase_vehicle
  find-erase n m [] d = ground arith
  find-erase n m (v ∷ vs) d = ground (arith, find-erase n m vs, find_free m vs)

  find-set :
      (n m : ℕ) (body : J) (vs : List (Vehicle J))
      → find_vehicle m (set_vehicle n body vs) ≡ (
          if n == m
          then (if is_taken (vehicle_ids vs) m then some body else none)
          else find_vehicle m vs)
  unfolding find_vehicle set_vehicle
  find-set n m body [] = ground arith
  find-set n m body (v ∷ vs) = ground (arith, find-set n m body vs)

  -- A car that is added under the id that the search gives out leaves the ids distinct, is the
  -- one found under its id, and hides no other.
  pub add_new_car-open :
      (c : Client J) (body : J)
      → Distinct c.vehicles
      → let c' = add_new_car (get_open_car_id c) body c in
        Distinct c'.vehicles
        × (find_vehicle (get_open_car_id c) c.vehicles ≡ none)
        × ((n : ℕ)
            → find_vehicle n c'.vehicles
              ≡ (if get_open_car_id c == n then some body else find_vehicle n c.vehicles))
  unfolding add_new_car get_open_car_id
  add_new_car-open c body d = (
    Distinct-append c.vehicles _ d free,
    (find_free _ c.vehicles free).0,
    (λ n. ground (
      arith,
      find-append n c.vehicles (record { id = open_id (vehicle_ids c.vehicles); body = body }),
      free,
      find_free n c.vehicles,
    )),
  )
    where
      free : is_taken (vehicle_ids c.vehicles) (open_id (vehicle_ids c.vehicles)) ≡ false
      free = (open_id_least (vehicle_ids c.vehicles)).1

  -- Reading a car's document gives the first car with the id and leaves the client as it was,
  -- also where no car has the id and the code tries to delete it.
  pub get_car_data_lem : (n : ℕ) (c : Client J) → get_car_data n c ≡ (find_vehicle n c.vehicles, c)
  unfolding get_car_data delete_car
  get_car_data_lem n c = elim (Option-cases (find_vehicle n c.vehicles)) [
    | inl e ↦
        rw (e, get_car_data)
          (ap (λ vs. (none, record c { vehicles = vs })) (find-none_free n c.vehicles e))
    | inr (body, e) ↦ rw (e, get_car_data)
  ]

  find-none_set :
      (n : ℕ) (body : J) (vs : List (Vehicle J))
      → find_vehicle n vs ≡ none
      → erase_vehicle n vs ≡ set_vehicle n body vs
  unfolding find_vehicle erase_vehicle set_vehicle
  find-none_set n body [] e = refl
  find-none_set n body (v ∷ vs) e = ground (arith, find-none_set n body vs)

  pub set_car_data_lem :
      (n : ℕ) (body : J) (c : Client J)
      → (set_car_data n body c).vehicles ≡ set_vehicle n body c.vehicles
  unfolding set_car_data delete_car
  set_car_data_lem n body c = elim (Option-cases (find_vehicle n c.vehicles)) [
    | inl e ↦ rw (e, set_car_data) (find-none_set n body c.vehicles e)
    | inr (old, e) ↦ rw (e, set_car_data)
  ]

  -- While the ids are distinct, setting, deleting and reading cars act as on a map from ids to
  -- documents, where only a key that is there can be set; and both keep the ids distinct.
  pub cars_map :
      (n : ℕ) (body : J) (c : Client J)
      → Distinct c.vehicles
      → Distinct (set_car_data n body c).vehicles
        × Distinct (delete_car n c).vehicles
        × ((m : ℕ)
            → (get_car_data m (set_car_data n body c)).0 ≡ (
                if n == m
                then (if is_taken (vehicle_ids c.vehicles) m then some body else none)
                else (get_car_data m c).0))
        × ((m : ℕ)
            → (get_car_data m (delete_car n c)).0 ≡ (if n == m then none else (get_car_data m c).0))
  unfolding delete_car
  cars_map n body c d = (
    rw (set_car_data_lem n body c) (Distinct-set n body c.vehicles d),
    Distinct-erase n c.vehicles d,
    (λ m.
        rw
          (
            get_car_data_lem m (set_car_data n body c),
            get_car_data_lem m c,
            set_car_data_lem n body c,
          )
          (find-set n m body c.vehicles)),
    (λ m.
        rw (get_car_data_lem m (delete_car n c), get_car_data_lem m c)
          (find-erase n m c.vehicles d)),
  )

  -- The vehicles other than the unicycle.
  abbrev pub cars_of : ℤ → List (Vehicle J) → List (Vehicle J)
  cars_of u [] = []
  cars_of u (v ∷ vs) = if is_id u v.id then cars_of u vs else v ∷ cars_of u vs

  any-is_taken :
      (n : ℕ) (vs : List (Vehicle J))
      → any_of (λ v. is_id (pos n) v.id) vs ≡ is_taken (vehicle_ids vs) n
  any-is_taken n [] = refl
  any-is_taken n (v ∷ vs) = ground (arith, any-is_taken n vs)

  cars_of_absent :
      (n : ℕ) (vs : List (Vehicle J))
      → is_taken (vehicle_ids vs) n ≡ false
      → length (cars_of (pos n) vs) ≡ length vs
  cars_of_absent n [] h = refl
  cars_of_absent n (v ∷ vs) h = ground (arith, cars_of_absent n vs)

  cars_of_present :
      (n : ℕ) (vs : List (Vehicle J))
      → Distinct vs
      → is_taken (vehicle_ids vs) n ≡ true
      → suc (length (cars_of (pos n) vs)) ≡ length vs
  cars_of_present n [] d h = cc
  cars_of_present n (v ∷ vs) d h = ground (arith, cars_of_present n vs, cars_of_absent n vs)

  any_negative : (n : ℕ) (vs : List (Vehicle J)) → any_of (λ v. is_id (negsuc n) v.id) vs ≡ false
  any_negative n [] = refl
  any_negative n (v ∷ vs) = any_negative n vs

  all_count : (n : ℕ) (vs : List (Vehicle J)) → length vs ≡ length (cars_of (negsuc n) vs)
  all_count n [] = refl
  all_count n (v ∷ vs) = ap suc (all_count n vs)

  count_of :
      (u : ℤ) (vs : List (Vehicle J))
      → Distinct vs
      → (if any_of (λ v. is_id u v.id) vs then length vs - 1 else length vs) ≡ length (cars_of u vs)
  count_of (pos n) vs d =
      rw (any-is_taken n vs) (ground (arith, cars_of_absent n vs, cars_of_present n vs d))
  count_of (negsuc n) vs d = rw (any_negative n vs) (all_count n vs)

  -- The car count is the number of vehicles other than the unicycle, while ids are distinct.
  pub get_car_count_lem :
      (c : Client J)
      → Distinct c.vehicles
      → get_car_count c ≡ length (cars_of c.unicycle_id c.vehicles)
  unfolding get_car_count
  get_car_count_lem c d = count_of c.unicycle_id c.vehicles d
