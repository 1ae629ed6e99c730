-- ===== src/Limiter/Counts.antt =====
-- What `GetStats` reports.
use beam_mp_server.Base.{
  ℕ, suc, zero, ◌≤◌, ◌<◌, ◌≡◌, refl, sym, ◌∙◌, ◌↔◌, List, [], ◌∷◌, none, some, arith, length,
  list_eq, list_beq_iff,
}
use beam_mp_server.Base.Dict.{lookup, IsDict}
use beam_mp_server.Base.Text.{Bytes}
use beam_mp_server.Limiter.{Limiter, Stats, add_bucket, add_buckets, get_stats}
use beam_mp_server.Limiter.Ledger.{Ledger, Inv, held_by, bucket}

module _ (limit : ℕ) where
  max_grows :
      (s : Stats) (m : List (Bytes × ℕ))
      → s.current_max_per_ip ≤ (add_buckets s limit m).current_max_per_ip
  unfolding add_buckets add_bucket
  max_grows s [] = omega arith
  max_grows s ((j, w) ∷ m) = ground (arith, max_grows (add_bucket s limit w) m)

  max_upper :
      (s : Stats) (m : List (Bytes × ℕ)) (ip : Bytes) (n : ℕ)
      → lookup ip m ≡ some n
      → n ≤ (add_buckets s limit m).current_max_per_ip
  unfolding add_buckets add_bucket lookup
  max_upper s [] ip n h = cc
  max_upper s ((j, w) ∷ m) ip n h =
      ground (arith, max_grows (add_bucket s limit w) m, max_upper (add_bucket s limit w) m ip n)

  saturated_grows :
      (s : Stats) (m : List (Bytes × ℕ))
      → s.saturated_ip_buckets ≤ (add_buckets s limit m).saturated_ip_buckets
  unfolding add_buckets add_bucket
  saturated_grows s [] = omega arith
  saturated_grows s ((j, w) ∷ m) = ground (arith, saturated_grows (add_bucket s limit w) m)

  saturated_zero :
      (s : Stats) (m : List (Bytes × ℕ)) (ip : Bytes) (n : ℕ)
      → (add_buckets s limit m).saturated_ip_buckets ≡ 0
      → lookup ip m ≡ some n
      → n < limit
  unfolding add_buckets add_bucket lookup
  saturated_zero s [] ip n z h = cc
  saturated_zero s ((j, w) ∷ m) ip n z h = ground (
    arith,
    saturated_grows (add_bucket s limit w) m,
    saturated_zero (add_bucket s limit w) m ip n,
  )

  -- The bindings of the rest of a map are bindings of the map.
  lookup_tail :
      (j ip : Bytes) (w n : ℕ) (m : List (Bytes × ℕ))
      → lookup j m ≡ none
      → lookup ip m ≡ some n
      → lookup ip ((j, w) ∷ m) ≡ some n
  unfolding lookup
  lookup_tail j ip w n m absent h = ground (arith, list_beq_iff j ip)

  lookup_head : (j : Bytes) (w : ℕ) (m : List (Bytes × ℕ)) → lookup j ((j, w) ∷ m) ≡ some w
  unfolding lookup
  lookup_head j w m = ground (arith, list_beq_iff j j)

  max_least :
      (s : Stats) (m : List (Bytes × ℕ)) (b : ℕ)
      → IsDict m
      → s.current_max_per_ip ≤ b
      → ((ip : Bytes) (n : ℕ) → lookup ip m ≡ some n → n ≤ b)
      → (add_buckets s limit m).current_max_per_ip ≤ b
  unfolding add_buckets
  max_least s [] b d h all = h
  max_least s ((j, w) ∷ m) b d h all =
      max_least (add_bucket s limit w) m b d.1
        (unfold add_bucket in ground (arith, all j w (lookup_head j w m)))
        (λ ip n e. all ip n (lookup_tail j ip w n m d.0 e))

  saturated_none :
      (s : Stats) (m : List (Bytes × ℕ))
      → IsDict m
      → s.saturated_ip_buckets ≡ 0
      → ((ip : Bytes) (n : ℕ) → lookup ip m ≡ some n → n < limit)
      → (add_buckets s limit m).saturated_ip_buckets ≡ 0
  unfolding add_buckets
  saturated_none s [] d h all = h
  saturated_none s ((j, w) ∷ m) d h all =
      saturated_none (add_bucket s limit w) m d.1
        (unfold add_bucket in ground (arith, all j w (lookup_head j w m)))
        (λ ip n e. all ip n (lookup_tail j ip w n m d.0 e))

  global_kept :
      (s : Stats) (m : List (Bytes × ℕ)) → (add_buckets s limit m).current_global ≡ s.current_global
  unfolding add_buckets add_bucket
  global_kept s [] = refl
  global_kept s ((j, w) ∷ m) = global_kept (add_bucket s limit w) m

bucket_le : (n b k : ℕ) → bucket n ≡ some k → n ≤ b → k ≤ b
bucket_le zero b k e h = cc
bucket_le (suc n) b k e h = ground arith

-- Whenever the limiter's counts are those of the live guards, the reported global count is their
-- number, the reported maximum is the least upper bound of the addresses' counts, and no bucket
-- is reported as saturated exactly if every address is below the limit.
get_stats_lem :
    (per all : ℕ) (s : Ledger)
    → Inv per all s
    → ((get_stats s.limiter).current_global ≡ length s.held)
      × ((ip : Bytes) → held_by ip s.held ≤ (get_stats s.limiter).current_max_per_ip)
      × ((b : ℕ)
          → ((ip : Bytes) → held_by ip s.held ≤ b)
          → (get_stats s.limiter).current_max_per_ip ≤ b)
      × (((get_stats s.limiter).saturated_ip_buckets ≡ 0)
          ↔ ((ip : Bytes) → held_by ip s.held < per))
unfolding get_stats
get_stats_lem per all s v = (
  global_kept l.max_per_ip _ l.per_ip ∙ v.total,
  (λ ip. above ip (held_by ip s.held) (v.tally ip)),
  (λ b h.
      max_least l.max_per_ip _ l.per_ip b v.keys (omega arith)
        (λ ip n e. bucket_le (held_by ip s.held) b n (sym (v.tally ip) ∙ e) (h ip))),
  (
    (λ z ip. room ip (held_by ip s.held) z (v.tally ip)),
    (λ h. saturated_none l.max_per_ip _ l.per_ip v.keys refl (λ ip n e. omega (
      arith,
      bucket_le (held_by ip s.held) (held_by ip s.held) n (sym (v.tally ip) ∙ e),
      h ip,
      v.limits,
    ))),
  ),
)
  where
    l : Limiter
    l = s.limiter

    above :
        (ip : Bytes) (n : ℕ) → lookup ip l.per_ip ≡ bucket n → n ≤ (get_stats l).current_max_per_ip
    above ip zero e = omega arith
    above ip (suc n) e = max_upper l.max_per_ip _ l.per_ip ip (suc n) e

    room :
        (ip : Bytes) (n : ℕ)
        → (get_stats l).saturated_ip_buckets ≡ 0
        → lookup ip l.per_ip ≡ bucket n
        → n < per
    room ip zero z e = v.positive.0
    room ip (suc n) z e =
        omega (arith, saturated_zero l.max_per_ip _ l.per_ip ip (suc n) z e, v.limits)
