-- ===== src/Session/Connection/Fuel.antt =====
-- The rounds of the loops over a stream are bounded by its size: each takes a packet off it.
use beam_mp_server.Base.{
  ℕ, zero, suc, ◌<◌, ◌≡◌, refl, Bool, true, false, [], ◌∷◌, Option, none, some, arith,
  if◌then◌else◌, length, is_empty, nat_eq, ◌⊎◌, inl, inr, Bool-cases,
}
use beam_mp_server.Base.Dict.{lookup}
use beam_mp_server.Base.Text.{Bytes}
use beam_mp_server.Client.{Client, is_disconnected}
use beam_mp_server.World.{Outside, World, Outcome, M, ok, threw, go_on, ◌>>=◌, return, lock}
use beam_mp_server.Server.{global_parser}
use beam_mp_server.Receive.{tcp_rcv}
use beam_mp_server.Session.Connection.{
  client_rounds, client_found, after_receipt, after_parsing, attempt, caught, drop_out,
}
use beam_mp_server.Session.Connection.Packets.{Shorter, tcp_rcv-Shorter}

-- The loop without fuel: a stream, the world at the beginning of a round, and what comes of it.
pub data Ended {J : Type 0} (o : Outside J) (h : ℕ)
    : Bytes → World J → Outcome Bytes × World J → Type 0 where
  removed :
      {stream : Bytes} {w : World J} → lookup h w.store ≡ none → Ended o h stream w (ok stream, w)
  gone :
      {stream : Bytes} {w : World J} (c : Client J)
      → lookup h w.store ≡ some c
      → is_disconnected c ≡ true
      → Ended o h stream w (ok stream, w)
  broken :
      {stream : Bytes} {w u : World J} (c : Client J)
      → lookup h w.store ≡ some c
      → is_disconnected c ≡ false
      → tcp_rcv o h stream w ≡ (threw, u)
      → Ended o h stream w (threw, u)
  closed :
      {stream rest : Bytes} {w u : World J} (c : Client J)
      → lookup h w.store ≡ some c
      → is_disconnected c ≡ false
      → tcp_rcv o h stream w ≡ (ok ([], rest), u)
      → Ended o h stream w (drop_out o h rest u)
  rejected :
      {stream rest : Bytes} {w u v : World J} (c : Client J) (b : ℕ) (s : Bytes)
      → lookup h w.store ≡ some c
      → is_disconnected c ≡ false
      → tcp_rcv o h stream w ≡ (ok (b ∷ s, rest), u)
      → global_parser o h (b ∷ s) false u ≡ (threw, v)
      → Ended o h stream w (drop_out o h rest v)
  served :
      {stream rest : Bytes} {w u v : World J} {r : Outcome Bytes × World J} (c : Client J) (b : ℕ)
      (s : Bytes)
      → lookup h w.store ≡ some c
      → is_disconnected c ≡ false
      → tcp_rcv o h stream w ≡ (ok (b ∷ s, rest), u)
      → global_parser o h (b ∷ s) false u ≡ (ok tt, v)
      → Ended o h rest v r
      → Ended o h stream w r

module _ {J : Type 0} (o : Outside J) (h : ℕ) where
  -- Two ways to go on that agree on what is shorter.
  abbrev Agree : Bytes → (Bytes → M J Bytes) → (Bytes → M J Bytes) → Type 0
  Agree stream f g =
      (rest : Bytes) (u : World J) → length rest < length stream → f rest u ≡ g rest u

  after_receipt-Agree :
      (f g : Bytes → M J Bytes) (stream s rest : Bytes) (w : World J)
      → Agree stream f g
      → (is_empty s ≡ true) ⊎ (length rest < length stream)
      → after_receipt o f h (s, rest) w ≡ after_receipt o g h (s, rest) w
  unfolding after_receipt ◌>>=◌ after_parsing
  after_receipt-Agree f g stream s rest w a (inl e) = rw e refl
  after_receipt-Agree f g stream s rest w a (inr b) = elim (Bool-cases (is_empty s)) [
    | inl e ↦ rw e refl
    | inr e ↦ rw e (parsed f g stream rest (attempt (global_parser o h s false) w) a b)
  ]
    where
      parsed :
          (f g : Bytes → M J Bytes) (stream rest : Bytes) (r : Outcome Bool × World J)
          → Agree stream f g
          → length rest < length stream
          → go_on r (λ p. if p then f rest else drop_out o h rest)
            ≡ go_on r (λ p. if p then g rest else drop_out o h rest)
      parsed f g stream rest (ok true, w) a b = a rest w b
      parsed f g stream rest (ok false, w) a b = refl
      parsed f g stream rest (threw, w) a b = refl

  received-Agree :
      (f g : Bytes → M J Bytes) (stream : Bytes) (r : Outcome (Bytes × Bytes) × World J)
      → Agree stream f g
      → Shorter stream r
      → go_on r (after_receipt o f h) ≡ go_on r (after_receipt o g h)
  received-Agree f g stream (ok (s, rest), w) a b = after_receipt-Agree f g stream s rest w a b
  received-Agree f g stream (threw, w) a b = refl

  client_found-Agree :
      (f g : Bytes → M J Bytes) (stream : Bytes) (c : Option (Client J)) (w : World J)
      → Agree stream f g
      → client_found o f h stream c w ≡ client_found o g h stream c w
  unfolding client_found ◌>>=◌
  client_found-Agree f g stream none w a = refl
  client_found-Agree f g stream (some c) w a = elim (Bool-cases (is_disconnected c)) [
    | inl e ↦ rw e refl
    | inr e ↦
        rw e (received-Agree f g stream (tcp_rcv o h stream w) a (tcp_rcv-Shorter o h stream w))
  ]

  module _ (fuel : ℕ) (stream : Bytes) (w : World J) (c : Client J) where
    parsed-Ended :
        (b : ℕ) (s rest : Bytes) (u : World J) (y : Outcome (Unit {0}) × World J)
        → lookup h w.store ≡ some c
        → is_disconnected c ≡ false
        → tcp_rcv o h stream w ≡ (ok (b ∷ s, rest), u)
        → global_parser o h (b ∷ s) false u ≡ y
        → ((v : World J) → Ended o h rest v (client_rounds o fuel h rest v))
        → Ended o h stream w (go_on (caught y) (after_parsing o (client_rounds o fuel h) h rest))
    unfolding after_parsing
    parsed-Ended b s rest u (ok tt, v) found alive r e k = served c b s found alive r e (k v)
    parsed-Ended b s rest u (threw, v) found alive r e k = rejected c b s found alive r e

    received-Ended :
        (x : Outcome (Bytes × Bytes) × World J)
        → lookup h w.store ≡ some c
        → is_disconnected c ≡ false
        → tcp_rcv o h stream w ≡ x
        → Shorter stream x
        → ((rest : Bytes) (v : World J)
            → length rest < length stream
            → Ended o h rest v (client_rounds o fuel h rest v))
        → Ended o h stream w (go_on x (after_receipt o (client_rounds o fuel h) h))
    unfolding after_receipt ◌>>=◌ attempt
    received-Ended (threw, u) found alive e short k = broken c found alive e
    received-Ended (ok ([], rest), u) found alive e short k = closed c found alive e
    received-Ended (ok (b ∷ s, rest), u) found alive e (inl n) k = absurd (ground arith)
    received-Ended (ok (b ∷ s, rest), u) found alive e (inr n) k =
        parsed-Ended b s rest u (global_parser o h (b ∷ s) false u) found alive e refl
          (λ v. k rest v n)

  client_found-Ended :
      (fuel : ℕ) (stream : Bytes) (w : World J) (c : Option (Client J))
      → lookup h w.store ≡ c
      → ((rest : Bytes) (v : World J)
          → length rest < length stream
          → Ended o h rest v (client_rounds o fuel h rest v))
      → Ended o h stream w (client_found o (client_rounds o fuel h) h stream c w)
  unfolding client_found ◌>>=◌ return
  client_found-Ended fuel stream w none found k = removed found
  client_found-Ended fuel stream w (some c) found k = elim (Bool-cases (is_disconnected c)) [
    | inl e ↦ rw e (gone c found e)
    | inr e ↦ rw e (
        received-Ended fuel stream w c (tcp_rcv o h stream w) found e refl
          (tcp_rcv-Shorter o h stream w) k)
  ]

  client_rounds-Ended :
      (fuel : ℕ) (stream : Bytes) (w : World J)
      → length stream < fuel
      → Ended o h stream w (client_rounds o fuel h stream w)
  unfolding client_rounds ◌>>=◌ lock
  client_rounds-Ended zero stream w p = absurd (omega arith)
  client_rounds-Ended (suc fuel) stream w p =
      client_found-Ended fuel stream w (lookup h w.store) refl
        (λ rest v b. client_rounds-Ended fuel rest v (omega arith))

  rounds_agree :
      (fuel more : ℕ) (stream : Bytes) (w : World J)
      → length stream < fuel
      → length stream < more
      → client_rounds o fuel h stream w ≡ client_rounds o more h stream w
  unfolding client_rounds ◌>>=◌ lock
  rounds_agree zero more stream w p q = absurd (omega arith)
  rounds_agree (suc fuel) zero stream w p q = absurd (omega arith)
  rounds_agree (suc fuel) (suc more) stream w p q =
      client_found-Agree (client_rounds o fuel h) (client_rounds o more h) stream (lookup h w.store)
        w (λ rest u b. rounds_agree fuel more rest u (omega arith) (omega arith))

  -- However the packets of a connection's stream are served: with fuel for one round more than the
  -- stream has bytes, what the loop gives is reached in finitely many rounds by its own tests and
  -- never by the fuel. The client is gone, or the receipt of a packet throws, or no packet comes or
  -- the parsing of one throws, upon which the client is disconnected; every packet before that was
  -- parsed. More fuel changes nothing.
  pub client_rounds_enough :
      (fuel more : ℕ) (stream : Bytes) (w : World J)
      → length stream < fuel
      → length stream < more
      → Ended o h stream w (client_rounds o fuel h stream w)
        × (client_rounds o fuel h stream w ≡ client_rounds o more h stream w)
  client_rounds_enough fuel more stream w p q =
      (client_rounds-Ended fuel stream w p, rounds_agree fuel more stream w p q)
