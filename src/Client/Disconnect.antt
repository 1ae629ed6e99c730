-- ===== src/Client/Disconnect.antt =====
-- `TClient::Disconnect` of src/Client.cpp called by any number of threads at once: the steps
-- between two accesses of shared state, interleaved at will. `disconnect` in the parent is the
-- call with no other thread in between.
use beam_mp_server.Base.{
  ℕ, ◌+◌, ◌≤◌, ◌≡◌, refl, ◌≢◌, inl, inr, Bool, true, false, arith, ◌==◌, if◌then◌else◌, Bool-cases,
  ==_refl,
}
use beam_mp_server.Client.{
  Client, DisconnectState, connected, disconnecting, disconnected, disconnect,
}

-- Where a call stands: not begun, past the exchange, past the closing of the socket, returned.
pub data Place : Type 0 where
  outside exchanged closed : Place
  returned : Bool → Place

pub record Threads : Type 0 where
  pub state : DisconnectState
  pub socket_open : Bool
  pub closings : ℕ
  pub place : ℕ → Place

abbrev pub move_to : ℕ → Place → (ℕ → Place) → ℕ → Place
move_to i p place j = if i == j then p else place j

-- `compare_exchange_strong`.
unfoldable pub exchange : ℕ → Threads → Threads
exchange i s = elim s.state [
  | connected ↦ record s { state = disconnecting; place = move_to i exchanged s.place }
  | _ ↦ record s { place = move_to i (returned false) s.place }
]

-- `shutdown` and `close` of a socket that is open.
unfoldable pub close_socket : ℕ → Threads → Threads
close_socket i s = record s {
  socket_open = false;
  closings = if s.socket_open then s.closings + 1 else s.closings;
  place = move_to i closed s.place;
}

unfoldable pub finish : ℕ → Threads → Threads
finish i s = record s { state = disconnected; place = move_to i (returned true) s.place }

pub data Step (s : Threads) : Threads → Type 0 where
  exchanges : (i : ℕ) → s.place i ≡ outside → Step s (exchange i s)
  closes : (i : ℕ) → s.place i ≡ exchanged → Step s (close_socket i s)
  finishes : (i : ℕ) → s.place i ≡ closed → Step s (finish i s)

pub data Reach (s : Threads) : Threads → Type 0 where
  start : Reach s s
  next : {t u : Threads} → Reach s t → Step t u → Reach s u

abbrev pub initial : Threads
initial = record { state = connected; socket_open = true; closings = 0; place = λ i. outside }

-- The call has passed the exchange as the winner.
abbrev pub has_won : Place → Bool
has_won outside = false
has_won exchanged = true
has_won closed = true
has_won (returned b) = b

-- What a call at each place has found or left.
abbrev Agrees : DisconnectState → Bool → ℕ → Place → Type 0
Agrees st op n outside = Unit
Agrees st op n exchanged = (st ≡ disconnecting) × (op ≡ true) × (n ≡ 0)
Agrees st op n closed = (st ≡ disconnecting) × (op ≡ false) × (n ≡ 1)
Agrees st op n (returned true) = (st ≡ disconnected) × (op ≡ false) × (n ≡ 1)
Agrees st op n (returned false) = st ≢ connected

pub record Inv (s : Threads) : Type 0 where
  pub one_winner : (i j : ℕ) → has_won (s.place i) ≡ true → has_won (s.place j) ≡ true → i ≡ j
  pub agrees : (i : ℕ) → Agrees s.state s.socket_open s.closings (s.place i)
  pub untouched :
      s.state ≡ connected
      → (s.socket_open ≡ true) × (s.closings ≡ 0) × ((i : ℕ) → has_won (s.place i) ≡ false)
  pub at_most_once : s.closings ≤ 1

initial-Inv : Inv initial
initial-Inv = record {
  one_winner = λ i j h k. cc;
  agrees = λ i. tt;
  untouched = λ e. (refl, refl, λ i. refl);
  at_most_once = omega arith;
}

-- A call that has not won agrees with whatever the winner does.
loser-Agrees :
    (p : Place) (st st' : DisconnectState) (op op' : Bool) (n n' : ℕ)
    → has_won p ≡ false
    → (st ≢ connected → st' ≢ connected)
    → Agrees st op n p
    → Agrees st' op' n' p
loser-Agrees outside st st' op op' n n' h k a = tt
loser-Agrees exchanged st st' op op' n n' h k a = cc
loser-Agrees closed st st' op op' n n' h k a = cc
loser-Agrees (returned true) st st' op op' n n' h k a = cc
loser-Agrees (returned false) st st' op op' n n' h k a = k a

module _ (s : Threads) (v : Inv s) (i : ℕ) where
  -- When a call is past the exchange, every other has lost or not begun.
  others_lose :
      has_won (s.place i) ≡ true → (j : ℕ) → (i == j) ≡ false → has_won (s.place j) ≡ false
  others_lose h j ne = elim (Bool-cases (has_won (s.place j))) [
    | inl w ↦ ground (arith, v.one_winner i j h w)
    | inr l ↦ l
  ]

  -- The winner of the call `i` goes on to the place `p`.
  winner-Inv :
      (p : Place) (st' : DisconnectState) (op' : Bool) (n' : ℕ)
      → has_won p ≡ true
      → ((j : ℕ) → (i == j) ≡ false → has_won (s.place j) ≡ false)
      → st' ≢ connected
      → Agrees st' op' n' p
      → n' ≤ 1
      → Inv (record { state = st'; socket_open = op'; closings = n'; place = move_to i p s.place })
  winner-Inv p st' op' n' won others st a once = record {
    one_winner = λ j k. ground (arith, others j, others k);
    agrees = λ j. elim (Bool-cases (i == j)) [
      | inl e ↦ rw e a
      | inr e ↦ rw e (
          loser-Agrees (s.place j) s.state st' s.socket_open op' s.closings n' (others j e)
            (λ _. st) (v.agrees j))
    ];
    untouched = λ e. absurd (st e);
    at_most_once = once;
  }

  loser-Inv :
      s.state ≢ connected
      → s.place i ≡ outside
      → Inv (record s { place = move_to i (returned false) s.place })
  loser-Inv st o = record {
    one_winner = λ j k. ground (arith, v.one_winner j k);
    agrees = λ j. elim (Bool-cases (i == j)) [ inl e ↦ rw e st | inr e ↦ rw e (v.agrees j) ];
    untouched = λ e. absurd (st e);
    at_most_once = v.at_most_once;
  }

exchange-Inv :
    (s : Threads) (i : ℕ) (st : DisconnectState)
    → s.state ≡ st
    → Inv s
    → s.place i ≡ outside
    → Inv (exchange i s)
unfolding exchange
exchange-Inv s i connected e v o =
    let (op, n, none_won) = v.untouched e in
    rw (e, exchange)
      (winner-Inv s v i exchanged disconnecting s.socket_open s.closings refl (λ j _. none_won j)
        (λ h. cc) (refl, op, n) v.at_most_once)
exchange-Inv s i disconnecting e v o = rw (e, exchange) (loser-Inv s v i (λ h. cc) o)
exchange-Inv s i disconnected e v o = rw (e, exchange) (loser-Inv s v i (λ h. cc) o)

Step-Inv : {s t : Threads} → Inv s → Step s t → Inv t
unfolding close_socket finish
Step-Inv {s} v (exchanges i o) = exchange-Inv s i s.state refl v o
Step-Inv {s} v (closes i o) =
    let a : Agrees s.state s.socket_open s.closings exchanged = rw o at (v.agrees i) in
    rw (a.1, a.2)
      (winner-Inv s v i closed s.state false 1 refl (others_lose s v i (rw o)) (λ h. cc (a.0))
        (a.0, refl, refl) (omega arith))
Step-Inv {s} v (finishes i o) =
    let a : Agrees s.state s.socket_open s.closings closed = rw o at (v.agrees i) in
    winner-Inv s v i (returned true) disconnected s.socket_open s.closings refl
      (others_lose s v i (rw o)) (λ h. cc) (refl, a.1, a.2) v.at_most_once

Reach-Inv : {s : Threads} → Reach initial s → Inv s
Reach-Inv start = initial-Inv
Reach-Inv (next r st) = Step-Inv (Reach-Inv r) st

-- However the calls of any number of threads interleave: the socket is closed at most once; at
-- most one call returns true; when it does, the socket is closed and the client disconnected; and
-- a call returns false only once another has begun to disconnect.
pub disconnect_single_winner :
    (s : Threads)
    → Reach initial s
    → (s.closings ≤ 1)
      × ((i j : ℕ) → s.place i ≡ returned true → s.place j ≡ returned true → i ≡ j)
      × ((i : ℕ)
          → s.place i ≡ returned true
          → (s.state ≡ disconnected) × (s.socket_open ≡ false) × (s.closings ≡ 1))
      × ((i : ℕ) → s.place i ≡ returned false → s.state ≢ connected)
disconnect_single_winner s r = (
  v.at_most_once,
  (λ i j h k. v.one_winner i j (rw h) (rw k)),
  (λ i h. rw h at (v.agrees i)),
  (λ i h. rw h at (v.agrees i)),
)
  where
    v : Inv s
    v = Reach-Inv r

abbrev go_on : ℕ → Place → Threads → Threads
go_on i exchanged s = finish i (close_socket i s)
go_on i p s = s

-- A call that no other interrupts takes the three steps, or returns at once if the client was
-- disconnected before: what `disconnect` does.
pub disconnect_alone {ℓ} :
    {J : Type ℓ} (c : Client J) (s : Threads) (i : ℕ)
    → s.state ≡ c.state
    → s.socket_open ≡ c.socket_open
    → let t = exchange i s in
      let u = go_on i (t.place i) t in
      (u.state ≡ (disconnect c).1.state)
      × (u.socket_open ≡ (disconnect c).1.socket_open)
      × (u.place i ≡ returned (disconnect c).0)
unfolding exchange finish close_socket disconnect
disconnect_alone c s i e f = ground (arith, ==_refl i)
