-- ===== src/Limiter.antt =====
-- include/TConnectionLimiter.h and src/TConnectionLimiter.cpp: how many connections are open, in
-- all and from each address. Each method runs under the limiter's mutex, so it is one step here.
pub mod Ledger
pub mod Counts
pub mod Guards
use beam_mp_server.Base.{
  ℕ, ◌+◌, ◌-◌, Bool, true, false, List, [], ◌∷◌, Option, none, some, ltb, leb, ◌==◌, if◌then◌else◌,
  length, list_eq,
}
use beam_mp_server.Base.Dict.{lookup, insert, erase}
use beam_mp_server.Base.Text.{Bytes, codes}

pub record Limiter : Type 0 where
  pub max_per_ip : ℕ
  pub max_global : ℕ
  pub per_ip : List (Bytes × ℕ)
  pub global : ℕ

-- The constructor; `none` is the exception.
unfoldable pub create : ℕ → ℕ → Option Limiter
create max_per_ip max_global =
    if max_per_ip == 0
    then none
    else if max_global == 0
    then none
    else some (record { max_per_ip = max_per_ip; max_global = max_global; per_ip = []; global = 0 })

-- `TGuard`: `owned` says that `mOwner` is not null.
pub record Guard : Type 0 where
  pub owned : Bool
  pub ip : Bytes

abbrev pub no_guard : Guard
no_guard = record { owned = false; ip = [] }

-- What `try_emplace(ip, 0)` leaves in the map, and the count that it gives back.
unfoldable pub emplace : Bytes → List (Bytes × ℕ) → ℕ × List (Bytes × ℕ)
emplace ip m = elim (lookup ip m) [ none ↦ (0, insert ip 0 m) | some n ↦ (n, m) ]

unfoldable pub try_acquire : Bytes → Limiter → Option Guard × Limiter
try_acquire ip l =
    if leb l.max_global l.global
    then (none, l)
    else let (n, m) = emplace ip l.per_ip in
      if leb l.max_per_ip n then (none, record l { per_ip = m }) else (
        some (record { owned = true; ip = ip }),
        record l { per_ip = insert ip (n + 1) m; global = l.global + 1 },
      )

-- The bucket that `Release` found: one less, and erased at zero.
unfoldable pub release_bucket : Bytes → Option ℕ → List (Bytes × ℕ) → List (Bytes × ℕ)
release_bucket ip none m = m
release_bucket ip (some n) m =
    let left = if ltb 0 n then n - 1 else n in
    if left == 0 then erase ip (insert ip left m) else insert ip left m

unfoldable pub release : Bytes → Limiter → Limiter
release ip l = record l {
  per_ip = release_bucket ip (lookup ip l.per_ip) l.per_ip;
  global = if ltb 0 l.global then l.global - 1 else l.global;
}

-- `TGuard::Release`, which is also the destructor.
unfoldable pub release_guard : Guard → Limiter → Guard × Limiter
release_guard g l = if g.owned then (record g { owned = false }, release g.ip l) else (g, l)

-- `this = std::move(other)` for two guards that are not one object: the new `this`, the new
-- `other`, and the limiter.
unfoldable pub move_guard : Guard → Guard → Limiter → Guard × Guard × Limiter
move_guard this other l =
    (other, record { owned = false; ip = codes "<moved-from>" }, (release_guard this l).1)

pub record Stats : Type 0 where
  pub current_global : ℕ
  pub max_global : ℕ
  pub active_ip_buckets : ℕ
  pub current_max_per_ip : ℕ
  pub max_per_ip : ℕ
  pub saturated_ip_buckets : ℕ

-- One round of the loop of `GetStats`.
unfoldable pub add_bucket : Stats → ℕ → ℕ → Stats
add_bucket s limit n = record s {
  current_max_per_ip = if ltb s.current_max_per_ip n then n else s.current_max_per_ip;
  saturated_ip_buckets = if leb limit n then s.saturated_ip_buckets + 1 else s.saturated_ip_buckets;
}

unfoldable pub add_buckets : Stats → ℕ → List (Bytes × ℕ) → Stats
add_buckets s limit [] = s
add_buckets s limit ((ip, n) ∷ m) = add_buckets (add_bucket s limit n) limit m

unfoldable pub get_stats : Limiter → Stats
get_stats l =
    add_buckets
      (record {
        current_global = l.global;
        max_global = l.max_global;
        active_ip_buckets = length l.per_ip;
        current_max_per_ip = 0;
        max_per_ip = l.max_per_ip;
        saturated_ip_buckets = 0;
      })
      l.max_per_ip l.per_ip
