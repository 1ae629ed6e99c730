-- ===== src/OpenId/Laws.antt =====
-- The search ends, and gives the least id that is free.
use beam_mp_server.Base.{
  ℕ, zero, suc, ◌+◌, ◌≤◌, ◌<◌, ◌≡◌, refl, ◌⊎◌, inl, inr, Bool, true, false, List, [], ◌∷◌, arith,
  any_of, Bool-cases,
}
use beam_mp_server.Base.Ints.{ℤ, pos, negsuc, is_id}
use beam_mp_server.OpenId.{pass, passes, largest, open_id}

abbrev pub is_taken : List ℤ → ℕ → Bool
is_taken taken n = any_of (λ t. is_id t n) taken

-- Every id below is in use.
abbrev pub AllTaken : ℕ → List ℤ → Type 0
AllTaken n taken = (m : ℕ) → m < n → is_taken taken m ≡ true

is_taken-le : (taken : List ℤ) (n : ℕ) → is_taken taken n ≡ true → n ≤ largest taken
unfolding largest
is_taken-le [] n h = cc
is_taken-le (pos t ∷ taken) n h = ground (arith, is_taken-le taken n)
is_taken-le (negsuc t ∷ taken) n h = is_taken-le taken n h

pass_le : (taken : List ℤ) (id : ℕ) (found : Bool) → id ≤ (pass id found taken).0
unfolding pass
pass_le [] id found = omega arith
pass_le (t ∷ taken) id found = elim (Bool-cases (is_id t id)) [
  | inl e ↦ rw (e, pass) (omega (arith, pass_le taken (id + 1) false))
  | inr e ↦ rw (e, pass) (pass_le taken id found)
]

-- Once a clash was met, `found` stays false.
pass-false : (taken : List ℤ) (id : ℕ) → (pass id false taken).1 ≡ false
unfolding pass
pass-false [] id = refl
pass-false (t ∷ taken) id = elim (Bool-cases (is_id t id)) [
  | inl e ↦ rw (e, pass) (pass-false taken (id + 1))
  | inr e ↦ rw (e, pass) (pass-false taken id)
]

-- A pass with no clash leaves the id, which is then free; any other pass raises it.
pass_cases :
    (taken : List ℤ) (id : ℕ)
    → (((pass id true taken).1 ≡ true)
        × ((pass id true taken).0 ≡ id)
        × (is_taken taken id ≡ false))
      ⊎ (((pass id true taken).1 ≡ false) × (id < (pass id true taken).0))
unfolding pass
pass_cases [] id = inl (refl, refl, refl)
pass_cases (t ∷ taken) id = elim (Bool-cases (is_id t id)) [
  | inl e ↦
      rw (e, pass) (inr (pass-false taken (id + 1), omega (arith, pass_le taken (id + 1) false)))
  | inr e ↦ rw (e, pass) (pass_cases taken id)
]

-- The id is raised past ids in use only.
pass-AllTaken :
    (all taken : List ℤ) (id : ℕ) (found : Bool)
    → ((n : ℕ) → is_taken taken n ≡ true → is_taken all n ≡ true)
    → AllTaken id all
    → AllTaken (pass id found taken).0 all
unfolding pass
pass-AllTaken all [] id found sub h = h
pass-AllTaken all (t ∷ taken) id found sub h = elim (Bool-cases (is_id t id)) [
  | inl e ↦
      rw (e, pass)
        (pass-AllTaken all taken (id + 1) false (λ n k. sub n (ground arith))
          (λ m k. ground (arith, h m, sub m)))
  | inr e ↦ rw (e, pass) (pass-AllTaken all taken id found (λ n k. sub n (ground arith)) h)
]

AllTaken-le : (taken : List ℤ) (n : ℕ) → AllTaken n taken → n ≤ largest taken + 1
AllTaken-le taken zero h = omega arith
AllTaken-le taken (suc n) h = omega (arith, is_taken-le taken n (h n (omega arith)))

passes_lem :
    (taken : List ℤ) (fuel id : ℕ)
    → AllTaken id taken
    → largest taken + 2 ≤ fuel + id
    → id ≤ largest taken + 1
    → ((passes fuel id taken).1 ≡ true)
      × (is_taken taken (passes fuel id taken).0 ≡ false)
      × AllTaken (passes fuel id taken).0 taken
unfolding passes
passes_lem taken zero id all h k = absurd (omega arith)
passes_lem taken (suc fuel) id all h k = elim (pass_cases taken id) [
  | inl (found, same, free) ↦ rw (found, same) (refl, free, all)
  | inr (clash, more) ↦
      rw clash (passes_lem taken fuel (pass id true taken).0 all' (omega arith) bounded)
]
  where
    all' : AllTaken (pass id true taken).0 taken
    all' = pass-AllTaken taken taken id true (λ n e. e) all

    bounded : (pass id true taken).0 ≤ largest taken + 1
    bounded = AllTaken-le taken (pass id true taken).0 all'

-- Whatever ids are in use, the loop ends by its own test with the fuel that it is given, and its
-- result is free while every smaller id is in use.
pub open_id_least :
    (taken : List ℤ)
    → ((passes (largest taken + 2) 0 taken).1 ≡ true)
      × (is_taken taken (open_id taken) ≡ false)
      × AllTaken (open_id taken) taken
unfolding open_id
open_id_least taken =
    passes_lem taken (largest taken + 2) 0 (λ m h. absurd (omega arith)) (omega arith) (omega arith)
