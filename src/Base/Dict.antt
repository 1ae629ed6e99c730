-- ===== src/Base/Dict.antt =====
-- `std::unordered_map` as an association list. A key that is inserted anew goes to the end; the
-- program never depends on the order of a map.
use mathlib.Core.Path.{◌≡◌, refl}
use mathlib.Core.Option
use mathlib.Core.Option.{Option, none, some}
use mathlib.Core.List.{List, [], ◌∷◌}
use native.Mathlib.Omega.{arith}
use beam_mp_server.Base.Tests.{Eq, if◌then◌else◌}

module _ {ℓ κ} {K : Type ℓ} {V : Type κ} ⦃e : Eq K⦄ where
  -- `find`, and `at` with the exception for a missing key as `none`.
  unfoldable pub lookup : K → List (K × V) → Option V
  lookup k [] = none
  lookup k ((j, v) ∷ m) = if e.beq j k then some v else lookup k m

  -- `operator[] =`.
  unfoldable pub insert : K → V → List (K × V) → List (K × V)
  insert k v [] = (k, v) ∷ []
  insert k v ((j, w) ∷ m) = if e.beq j k then (j, v) ∷ m else (j, w) ∷ insert k v m

  unfoldable pub erase : K → List (K × V) → List (K × V)
  erase k [] = []
  erase k ((j, w) ∷ m) = if e.beq j k then m else (j, w) ∷ erase k m

  -- No key stands twice.
  abbrev pub IsDict : List (K × V) → Type κ
  IsDict [] = Unit {κ}
  IsDict ((j, w) ∷ m) = (lookup j m ≡ none) × IsDict m

  pub lookup-insert :
      (k j : K) (v : V) (m : List (K × V))
      → lookup j (insert k v m) ≡ (if e.beq k j then some v else lookup j m)
  unfolding lookup insert
  lookup-insert k j v [] = refl
  lookup-insert k j v ((i, w) ∷ m) =
      ground (arith, e.beq_iff k j, e.beq_iff i k, e.beq_iff i j, lookup-insert k j v m)

  pub insert-IsDict : (k : K) (v : V) (m : List (K × V)) → IsDict m → IsDict (insert k v m)
  unfolding insert lookup
  insert-IsDict k v [] h = (refl, tt)
  insert-IsDict k v ((j, w) ∷ m) (absent, h) =
      ground (arith, e.beq_iff j k, e.beq_iff k j, insert-IsDict k v m h, lookup-insert k j v m)

  pub lookup-erase :
      (k j : K) (m : List (K × V))
      → IsDict m
      → lookup j (erase k m) ≡ (if e.beq k j then none else lookup j m)
  unfolding lookup erase
  lookup-erase k j [] h = ground arith
  lookup-erase k j ((i, w) ∷ m) h =
      ground (arith, e.beq_iff k j, e.beq_iff i k, e.beq_iff i j, lookup-erase k j m h.1)

  pub erase-IsDict : (k : K) (m : List (K × V)) → IsDict m → IsDict (erase k m)
  unfolding lookup erase
  erase-IsDict k [] h = tt
  erase-IsDict k ((j, w) ∷ m) h =
      ground (arith, e.beq_iff j k, e.beq_iff k j, erase-IsDict k m h.1, lookup-erase k j m h.1)

  -- The value of a key put through a function.
  unfoldable pub adjust : K → (V → V) → List (K × V) → List (K × V)
  adjust k f [] = []
  adjust k f ((j, w) ∷ m) = if e.beq j k then (j, f w) ∷ m else (j, w) ∷ adjust k f m

  pub lookup-adjust :
      (k j : K) (f : V → V) (m : List (K × V))
      → lookup j (adjust k f m) ≡ (if e.beq k j then Option.map f (lookup j m) else lookup j m)
  unfolding lookup adjust
  lookup-adjust k j f [] = ground arith
  lookup-adjust k j f ((i, w) ∷ m) =
      ground (arith, e.beq_iff k j, e.beq_iff i k, e.beq_iff i j, lookup-adjust k j f m)

  pub adjust-IsDict : (k : K) (f : V → V) (m : List (K × V)) → IsDict m → IsDict (adjust k f m)
  unfolding lookup adjust
  adjust-IsDict k f [] h = tt
  adjust-IsDict k f ((j, w) ∷ m) h = ground (arith, adjust-IsDict k f m h.1, lookup-adjust k j f m)
