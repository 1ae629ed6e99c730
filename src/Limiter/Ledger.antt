-- ===== src/Limiter/Ledger.antt =====
-- The limiter against the list of the guards that are alive: whatever the threads do, the counts
-- are those of that list.
use beam_mp_server.Base.{
  ℕ, suc, zero, ◌+◌, ◌-◌, ◌≤◌, ◌<◌, ◌≡◌, refl, sym, ◌∙◌, ap, subst, ◌↔◌, ◌⊎◌, inl, inr, true, List,
  [], ◌∷◌, ◌++◌, Option, none, some, arith, if◌then◌else◌, length, length-append, list_eq, list_beq,
  list_beq_iff, Option-cases,
}
use beam_mp_server.Base.Dict.{
  lookup, insert, IsDict, lookup-insert, insert-IsDict, lookup-erase, erase-IsDict,
}
use native.Mathlib.Decide.{dec_lt}
use beam_mp_server.Base.Text.{Bytes}
use beam_mp_server.Limiter.{Limiter, Guard, create, try_acquire, emplace, release, release_bucket}

-- How many of the guards are for the address.
abbrev pub held_by : Bytes → List Bytes → ℕ
held_by ip [] = 0
held_by ip (j ∷ held) = if list_beq j ip then suc (held_by ip held) else held_by ip held

-- A bucket exists for the addresses with a guard only.
abbrev pub bucket : ℕ → Option ℕ
bucket zero = none
bucket (suc n) = some (suc n)

pub record Ledger : Type 0 where
  pub limiter : Limiter
  pub held : List Bytes

pub data Step (s : Ledger) : Ledger → Type 0 where
  acquired :
      (ip : Bytes) (g : Guard) (l : Limiter)
      → try_acquire ip s.limiter ≡ (some g, l)
      → Step s (record { limiter = l; held = ip ∷ s.held })
  refused :
      (ip : Bytes) (l : Limiter)
      → try_acquire ip s.limiter ≡ (none, l)
      → Step s (record { limiter = l; held = s.held })
  dropped :
      (xs ys : List Bytes) (ip : Bytes)
      → s.held ≡ xs ++ ip ∷ ys
      → Step s (record { limiter = release ip s.limiter; held = xs ++ ys })

pub data Reach (s : Ledger) : Ledger → Type 0 where
  start : Reach s s
  next : {t u : Ledger} → Reach s t → Step t u → Reach s u

-- The invariant of the limiter with maxima `per` and `all`.
pub record Inv (per all : ℕ) (s : Ledger) : Type 0 where
  pub positive : (0 < per) × (0 < all)
  pub limits : (s.limiter.max_per_ip ≡ per) × (s.limiter.max_global ≡ all)
  pub keys : IsDict s.limiter.per_ip
  pub tally : (ip : Bytes) → lookup ip s.limiter.per_ip ≡ bucket (held_by ip s.held)
  pub total : s.limiter.global ≡ length s.held
  pub per_ip_bound : (ip : Bytes) → held_by ip s.held ≤ per
  pub global_bound : length s.held ≤ all

pub held_by-append :
    (ip : Bytes) (xs ys : List Bytes) → held_by ip (xs ++ ys) ≡ held_by ip xs + held_by ip ys
held_by-append ip [] ys = omega arith
held_by-append ip (x ∷ xs) ys = ground (arith, held_by-append ip xs ys)

emplace_new :
    (ip : Bytes) (m : List (Bytes × ℕ)) → lookup ip m ≡ none → emplace ip m ≡ (0, insert ip 0 m)
unfolding emplace
emplace_new ip m h = rw (h, emplace)

emplace_old :
    (ip : Bytes) (m : List (Bytes × ℕ)) (n : ℕ) → lookup ip m ≡ some n → emplace ip m ≡ (n, m)
unfolding emplace
emplace_old ip m n h = rw (h, emplace)

emplace_count :
    (ip : Bytes) (m : List (Bytes × ℕ)) (n : ℕ) → lookup ip m ≡ bucket n → (emplace ip m).0 ≡ n
emplace_count ip m zero h = ap (λ r. r.0) (emplace_new ip m h)
emplace_count ip m (suc n) h = ap (λ r. r.0) (emplace_old ip m (suc n) h)

lookup-insert-emplace :
    (ip j : Bytes) (m : List (Bytes × ℕ)) (v : ℕ)
    → lookup j (insert ip v (emplace ip m).1) ≡ (if list_beq ip j then some v else lookup j m)
lookup-insert-emplace ip j m v = elim (Option-cases (lookup ip m)) [
  | inl e ↦
      rw (emplace_new ip m e)
        (ground (arith, lookup-insert ip j v (insert ip 0 m), lookup-insert ip j 0 m))
  | inr (n, e) ↦ rw (emplace_old ip m n e) (lookup-insert ip j v m)
]

insert-emplace-IsDict :
    (ip : Bytes) (m : List (Bytes × ℕ)) (v : ℕ) → IsDict m → IsDict (insert ip v (emplace ip m).1)
insert-emplace-IsDict ip m v d = elim (Option-cases (lookup ip m)) [
  | inl e ↦
      subst (λ r. IsDict (insert ip v r.1)) (sym (emplace_new ip m e))
        (insert-IsDict ip v (insert ip 0 m) (insert-IsDict ip 0 m d))
  | inr (n, e) ↦
      subst (λ r. IsDict (insert ip v r.1)) (sym (emplace_old ip m n e)) (insert-IsDict ip v m d)
]

-- The limiter after a guard for the address was given out.
abbrev pub with_guard : Bytes → Limiter → Limiter
with_guard ip l = record l {
  per_ip = insert ip ((emplace ip l.per_ip).0 + 1) (emplace ip l.per_ip).1;
  global = l.global + 1;
}

release_bucket-IsDict :
    (ip : Bytes) (o : Option ℕ) (m : List (Bytes × ℕ)) → IsDict m → IsDict (release_bucket ip o m)
unfolding release_bucket
release_bucket-IsDict ip none m d = d
release_bucket-IsDict ip (some n) m d =
    ground
      (arith, insert-IsDict ip 0 m d, insert-IsDict ip (n - 1) m d, erase-IsDict ip (insert ip 0 m))

lookup-release_bucket :
    (ip j : Bytes) (m : List (Bytes × ℕ)) (n : ℕ)
    → IsDict m
    → lookup j (release_bucket ip (some (suc n)) m)
      ≡ (if list_beq ip j then bucket n else lookup j m)
unfolding release_bucket
lookup-release_bucket ip j m zero d =
    rw (lookup-erase ip j (insert ip 0 m) (insert-IsDict ip 0 m d))
      (ground (arith, lookup-insert ip j 0 m))
lookup-release_bucket ip j m (suc n) d = ground (arith, lookup-insert ip j (suc n) m)

module _ {per all : ℕ} {s : Ledger} (v : Inv per all s) (ip : Bytes) where
  count_lem : (emplace ip s.limiter.per_ip).0 ≡ held_by ip s.held
  count_lem = emplace_count ip s.limiter.per_ip (held_by ip s.held) (v.tally ip)

  pub try_acquire_granted :
      length s.held < all
      → held_by ip s.held < per
      → try_acquire ip s.limiter
        ≡ (some (record { owned = true; ip = ip }), with_guard ip s.limiter)
  unfolding try_acquire
  try_acquire_granted h k = ground (arith, count_lem, v.limits, v.total)

  -- `emplace` leaves the map as it is when the address has its full share.
  emplace_full : per ≤ held_by ip s.held → (emplace ip s.limiter.per_ip).1 ≡ s.limiter.per_ip
  unfolding emplace
  emplace_full h = ground (arith, v.tally ip, v.positive)

  pub try_acquire_refused :
      (all ≤ length s.held) ⊎ (per ≤ held_by ip s.held)
      → try_acquire ip s.limiter ≡ (none, s.limiter)
  unfolding try_acquire
  try_acquire_refused (inl h) = ground (arith, v.limits, v.total)
  try_acquire_refused (inr h) = ground (arith, count_lem, emplace_full h, v.limits, v.total)

  with_guard-Inv :
      length s.held < all
      → held_by ip s.held < per
      → Inv per all (record { limiter = with_guard ip s.limiter; held = ip ∷ s.held })
  with_guard-Inv h k = record {
    positive = v.positive;
    limits = v.limits;
    keys = insert-emplace-IsDict ip s.limiter.per_ip _ v.keys;
    tally = λ j. ground (
      arith,
      lookup-insert-emplace ip j s.limiter.per_ip ((emplace ip s.limiter.per_ip).0 + 1),
      count_lem,
      v.tally j,
      list_beq_iff ip j,
    );
    total = omega (arith, v.total);
    per_ip_bound = λ j. ground (arith, v.per_ip_bound j, list_beq_iff ip j);
    global_bound = omega arith;
  }

  release-Inv :
      (xs ys : List Bytes)
      → s.held ≡ xs ++ ip ∷ ys
      → Inv per all (record { limiter = release ip s.limiter; held = xs ++ ys })
  unfolding release
  release-Inv xs ys e = record {
    positive = v.positive;
    limits = v.limits;
    keys = release_bucket-IsDict ip (lookup ip s.limiter.per_ip) s.limiter.per_ip v.keys;
    tally = λ j. rw (v.tally ip ∙ ap bucket mine) (
        lookup-release_bucket ip j s.limiter.per_ip (held_by ip (xs ++ ys)) v.keys
        ∙ ground (arith, removed j, v.tally j, list_beq_iff ip j));
    total = ground (arith, size, v.total);
    per_ip_bound = λ j. ground (arith, v.per_ip_bound j, removed j);
    global_bound = omega (arith, size, v.global_bound);
  }
    where
      removed :
          (j : Bytes)
          → held_by j s.held
            ≡ (if list_beq ip j then suc (held_by j (xs ++ ys)) else held_by j (xs ++ ys))
      removed j = rw e (ground (arith, held_by-append j xs ys, held_by-append j xs (ip ∷ ys)))

      mine : held_by ip s.held ≡ suc (held_by ip (xs ++ ys))
      mine = ground (arith, removed ip, list_beq_iff ip ip)

      size : length s.held ≡ suc (length (xs ++ ys))
      size = omega (arith, ap length e, length-append xs ys, length-append xs (ip ∷ ys))

-- Every step keeps the invariant.
Step-Inv : {per all : ℕ} {s t : Ledger} → Inv per all s → Step s t → Inv per all t
Step-Inv {per} {all} {s} v (acquired ip g l e) = elim (dec_lt (length s.held) all) [
  | yes h ↦ elim (dec_lt (held_by ip s.held) per) [
    | yes k ↦
        subst
          (λ (r : Option Guard × Limiter).
            Inv per all (record { limiter = r.1; held = ip ∷ s.held }))
          (sym (try_acquire_granted v ip h k) ∙ e) (with_guard-Inv v ip h k)
    | no k ↦ cc (try_acquire_refused v ip (inr (omega arith)), e)
  ]
  | no h ↦ cc (try_acquire_refused v ip (inl (omega arith)), e)
]
Step-Inv {per} {all} {s} v (refused ip l e) = elim (dec_lt (length s.held) all) [
  | yes h ↦ elim (dec_lt (held_by ip s.held) per) [
    | yes k ↦ cc (try_acquire_granted v ip h k, e)
    | no k ↦
        subst
          (λ (r : Option Guard × Limiter). Inv per all (record { limiter = r.1; held = s.held }))
          (sym (try_acquire_refused v ip (inr (omega arith))) ∙ e) v
  ]
  | no h ↦
      subst (λ (r : Option Guard × Limiter). Inv per all (record { limiter = r.1; held = s.held }))
        (sym (try_acquire_refused v ip (inl (omega arith))) ∙ e) v
]
Step-Inv v (dropped xs ys ip e) = release-Inv v ip xs ys e

Reach-Inv : {per all : ℕ} {s t : Ledger} → Inv per all s → Reach s t → Inv per all t
Reach-Inv v start = v
Reach-Inv v (next r st) = Step-Inv (Reach-Inv v r) st

create-Inv :
    (per all : ℕ) (l : Limiter)
    → create per all ≡ some l
    → Inv per all (record { limiter = l; held = [] })
unfolding create lookup
create-Inv per all l e = record {
  positive = ground arith;
  limits = ground arith;
  keys = subst (λ m. IsDict m) (ap (λ r. r.per_ip) same) tt;
  tally = λ ip. ap (λ r. lookup ip r.per_ip) (sym same);
  total = ap (λ r. r.global) (sym same);
  per_ip_bound = λ ip. omega arith;
  global_bound = omega arith;
}
  where
    same : record { max_per_ip = per; max_global = all; per_ip = []; global = 0 } ≡ l
    same = ground arith

-- Start a limiter with limits that the constructor accepts, and let any threads acquire guards,
-- be refused and drop guards in any order. Then every address has a bucket exactly if it has a
-- live guard, with their number in it; the global count is the number of live guards; and
-- neither limit is exceeded.
pub create-Reach-Inv :
    (per all : ℕ) (l : Limiter) (t : Ledger)
    → create per all ≡ some l
    → Reach (record { limiter = l; held = [] }) t
    → Inv per all t
create-Reach-Inv per all l t e = Reach-Inv (create-Inv per all l e)

-- In every state that the invariant allows, a guard is given out exactly if both limits leave
-- room, and a refusal changes nothing.
pub try_acquire_iff :
    (per all : ℕ) (s : Ledger) (ip : Bytes)
    → Inv per all s
    → (((length s.held < all) × (held_by ip s.held < per))
        ↔ ((try_acquire ip s.limiter).0 ≡ some (record { owned = true; ip = ip })))
      × ((try_acquire ip s.limiter).0 ≡ none → (try_acquire ip s.limiter).1 ≡ s.limiter)
try_acquire_iff per all s ip v = elim (dec_lt (length s.held) all) [
  | yes h ↦ elim (dec_lt (held_by ip s.held) per) [
    | yes k ↦ rw (try_acquire_granted v ip h k) (((λ _. refl), (λ _. (h, k))), λ e. cc)
    | no k ↦
        rw (try_acquire_refused v ip (inr (omega arith)))
          (((λ r. absurd (k r.1)), (λ e. cc)), λ e. refl)
  ]
  | no h ↦
      rw (try_acquire_refused v ip (inl (omega arith)))
        (((λ r. absurd (h r.0)), (λ e. cc)), λ e. refl)
]
