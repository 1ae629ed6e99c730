-- ===== src/World/Respects.antt =====
-- A relation between the state before a call and the state after it, proved call by call along
-- the code: what every step respects, every method respects.
use beam_mp_server.Base.{
  ℕ, ◌≡◌, refl, sym, subst, Bool, true, false, List, [], ◌∷◌, Option, none, some, if◌then◌else◌,
  nat_eq,
}
use beam_mp_server.Base.Dict.{lookup}
use beam_mp_server.World.{
  World, Outcome, ok, threw, M, go_on, ◌>>=◌, ◌>>◌, done, or_throw, return, ask, fetch, lock,
  for_each, until, for_each_client,
}

-- A relation that a sequence of steps inherits from its steps.
pub record IsOrder {J : Type 0} (R : World J → World J → Type 0) : Type 0 where
  pub stays : (w : World J) → R w w
  pub follows : (a b c : World J) → R a b → R b c → R a c

pub record Respects {J A : Type 0} (R : World J → World J → Type 0) (m : M J A) : Type 0 where
  pub apply : (w : World J) → R w (m w).1

module _ {J : Type 0} {R : World J → World J → Type 0} (q : IsOrder R) where
  go_on-Respects :
      {A B : Type 0} (a : World J) (r : Outcome A × World J) (f : A → M J B)
      → R a r.1
      → ((x : A) → Respects R (f x))
      → R a (go_on r f).1
  go_on-Respects a (ok x, w) f h k = q.follows a w (f x w).1 h ((k x).apply w)
  go_on-Respects a (threw, w) f h k = h

  pub bind :
      {A B : Type 0} {m : M J A} {f : A → M J B}
      → Respects R m
      → ((a : A) → Respects R (f a))
      → Respects R (m >>= f)
  unfolding ◌>>=◌
  bind {m} {f} h k = record { apply = λ w. go_on-Respects w (m w) f (h.apply w) k }

  pub then_do :
      {A B : Type 0} {m : M J A} {n : M J B} → Respects R m → Respects R n → Respects R (m >> n)
  unfolding ◌>>◌
  then_do {m} {n} h k = record { apply = λ w. go_on-Respects w (m w) (λ _. n) (h.apply w) (λ _. k) }

  -- A call that changes nothing.
  pub same : {A : Type 0} {m : M J A} → ((w : World J) → (m w).1 ≡ w) → Respects R m
  same {m} e = record { apply = λ w. subst (R w) (sym (e w)) (q.stays w) }

  pub returns : {A : Type 0} (a : A) → Respects R (return a)
  returns a = same (λ w. unfold return in refl)

  pub does_nothing : Respects R done
  does_nothing = same (λ w. unfold done in refl)

  pub asks : {A : Type 0} (f : World J → A) → Respects R (ask f)
  asks f = same (λ w. unfold ask in refl)

  pub or_throws : {A : Type 0} (a : Option A) → Respects R (or_throw a)
  or_throws none = same (λ w. unfold or_throw in refl)
  or_throws (some a) = same (λ w. unfold or_throw in refl)

  pub fetches : (h : ℕ) → Respects R (fetch h)
  unfolding fetch
  fetches h = record { apply = λ w. (or_throws (lookup h w.store)).apply w }

  pub locks : (h : ℕ) → Respects R (lock h)
  locks h = same (λ w. unfold lock in refl)

  pub if_else :
      {A : Type 0} (b : Bool) {m n : M J A}
      → Respects R m
      → Respects R n
      → Respects R (if b then m else n)
  if_else true h k = h
  if_else false h k = k

  pub for_each-Respects :
      (hs : List ℕ) (fn : ℕ → M J Bool)
      → ((h : ℕ) → Respects R (fn h))
      → Respects R (for_each hs fn)
  unfolding for_each
  for_each-Respects [] fn k = does_nothing
  for_each-Respects (h ∷ hs) fn k =
      bind (k h) (λ more. if_else more (for_each-Respects hs fn k) does_nothing)

  pub until-Respects {ℓ} :
      {A : Type ℓ} (xs : List A) {fn : A → M J Bool}
      → ((x : A) → Respects R (fn x))
      → Respects R (until xs fn)
  unfolding until
  until-Respects [] k = returns false
  until-Respects (x ∷ xs) k = bind (k x) (λ stop. if_else stop (returns true) (until-Respects xs k))

  pub for_each_client-Respects :
      (fn : ℕ → M J Bool) → ((h : ℕ) → Respects R (fn h)) → Respects R (for_each_client fn)
  unfolding for_each_client
  for_each_client-Respects fn k = record { apply = λ w. (for_each-Respects w.members fn k).apply w }

pub weaken :
    {J A : Type 0} {R S : World J → World J → Type 0} {m : M J A}
    → ((a b : World J) → R a b → S a b)
    → Respects R m
    → Respects S m
weaken {m} h r = record { apply = λ w. h w (m w).1 (r.apply w) }
