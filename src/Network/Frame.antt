-- ===== src/Network/Frame.antt =====
-- What sending leaves alone: of every client all but its queue, its connection and its ping time.
use beam_mp_server.Base.{
  ℕ, ◌≡◌, refl, ap, ◌∙◌, Bool, true, false, List, [], Option, none, some, arith, ◌==◌,
  if◌then◌else◌, nat_eq,
}
use mathlib.Core.Option
use beam_mp_server.Base.Dict.{lookup, lookup-adjust}
use beam_mp_server.Base.Text.{Bytes}
use beam_mp_server.Client.{Client, connected, disconnect, enqueue_packet, update_ping_time}
use beam_mp_server.World.{
  World, M, ◌>>=◌, ◌>>◌, return, done, ask, or_throw, lock, fetch, modify, note, until,
  increment_pps, Effect,
}
use beam_mp_server.World.Respects.{
  IsOrder, Respects, bind, then_do, if_else, returns, does_nothing, asks, or_throws, fetches, locks,
  until-Respects, weaken,
}
use beam_mp_server.Network.{disconnect_client, update_ping, send_later}

module _ {J : Type 0} where
  -- A client without what sending changes.
  abbrev pub forget : Client J → Client J
  forget c = record c { missed = []; state = connected; socket_open = true; last_ping = 0 }

  abbrev pub own_of : ℕ → World J → Option (Client J)
  own_of j w = Option.map forget (lookup j w.store)

  pub record Quiet (a b : World J) : Type 0 where
    pub owned : (j : ℕ) → own_of j b ≡ own_of j a
    pub membership : b.members ≡ a.members

  -- The client `h` may change at will, and all the others as sending changes them.
  pub record Frame (h : ℕ) (a b : World J) : Type 0 where
    pub others : (j : ℕ) → (h == j) ≡ false → own_of j b ≡ own_of j a
    pub membership : b.members ≡ a.members

  pub Quiet-order : IsOrder Quiet
  Quiet-order = record {
    stays = λ w. record { owned = λ j. refl; membership = refl };
    follows = λ a b c p r. record {
      owned = λ j. r.owned j ∙ p.owned j;
      membership = r.membership ∙ p.membership;
    };
  }

  pub Frame-order : (h : ℕ) → IsOrder (Frame h)
  Frame-order h = record {
    stays = λ w. record { others = λ j e. refl; membership = refl };
    follows = λ a b c p r. record {
      others = λ j e. r.others j e ∙ p.others j e;
      membership = r.membership ∙ p.membership;
    };
  }

  pub Frame-Quiet : {A : Type 0} {m : M J A} {h : ℕ} → Respects Quiet m → Respects (Frame h) m
  Frame-Quiet = weaken (λ a b r. record { others = λ j e. r.owned j; membership = r.membership })

  pub modify-Quiet :
      (i : ℕ) (f : Client J → Client J)
      → ((c : Client J) → forget (f c) ≡ forget c)
      → Respects Quiet (modify i f)
  unfolding modify
  modify-Quiet i f e = record {
    apply = λ w. record {
      owned = λ j. rw (lookup-adjust i j f w.store) (own (i == j) (lookup j w.store));
      membership = refl;
    };
  }
    where
      own :
          (b : Bool) (c : Option (Client J))
          → Option.map forget (if b then Option.map f c else c) ≡ Option.map forget c
      own true none = refl
      own true (some c) = ap some (e c)
      own false c = refl

  pub modify-Frame : (h : ℕ) (f : Client J → Client J) → Respects (Frame h) (modify h f)
  unfolding modify
  modify-Frame h f = record {
    apply = λ w. record { others = λ j e. rw (lookup-adjust h j f w.store, e); membership = refl };
  }

  pub note-Quiet : (e : Effect) → Respects Quiet (note {J = J} e)
  unfolding note
  note-Quiet e = record { apply = λ w. record { owned = λ j. refl; membership = refl } }

  pub increment_pps-Quiet : Respects Quiet (increment_pps {J = J})
  unfolding increment_pps
  increment_pps-Quiet = record { apply = λ w. record { owned = λ j. refl; membership = refl } }

  forget-disconnect : (c : Client J) → forget (disconnect c).1 ≡ forget c
  unfolding disconnect
  forget-disconnect c = ground arith

  pub disconnect_client-Quiet : (h : ℕ) → Respects Quiet (disconnect_client h)
  unfolding disconnect_client
  disconnect_client-Quiet h = modify-Quiet h (λ c. (disconnect c).1) forget-disconnect

  pub enqueue-Quiet : (h : ℕ) (s : Bytes) → Respects Quiet (modify h (enqueue_packet s))
  enqueue-Quiet h s = modify-Quiet h (enqueue_packet s) (λ c. unfold enqueue_packet in refl)

  pub update_ping-Quiet : (h : ℕ) → Respects Quiet (update_ping h)
  unfolding update_ping
  update_ping-Quiet h =
      bind Quiet-order (asks Quiet-order _)
        (λ now. modify-Quiet h (update_ping_time now) (λ c. unfold update_ping_time in refl))

-- The rules by which `search` follows the code.
module _ {J : Type 0} where
  pub Quiet-bind :
      {A B : Type 0} {m : M J A} {f : A → M J B}
      → Respects Quiet m
      → ((a : A) → Respects Quiet (f a))
      → Respects Quiet (m >>= f)
  Quiet-bind = bind Quiet-order

  pub Quiet-then :
      {A B : Type 0} {m : M J A} {n : M J B}
      → Respects Quiet m
      → Respects Quiet n
      → Respects Quiet (m >> n)
  Quiet-then = then_do Quiet-order

  pub Quiet-if :
      {A : Type 0} (b : Bool) {m n : M J A}
      → Respects Quiet m
      → Respects Quiet n
      → Respects Quiet (if b then m else n)
  Quiet-if = if_else Quiet-order

  pub Quiet-return : {A : Type 0} (a : A) → Respects Quiet (return {J = J} a)
  Quiet-return = returns Quiet-order

  pub Quiet-done : Respects Quiet (done {J = J})
  Quiet-done = does_nothing Quiet-order

  pub Quiet-ask : {A : Type 0} (f : World J → A) → Respects Quiet (ask f)
  Quiet-ask = asks Quiet-order

  pub Quiet-or_throw : {A : Type 0} (a : Option A) → Respects Quiet (or_throw {J = J} a)
  Quiet-or_throw = or_throws Quiet-order

  pub Quiet-fetch : (h : ℕ) → Respects Quiet (fetch {J = J} h)
  Quiet-fetch = fetches Quiet-order

  pub Quiet-lock : (h : ℕ) → Respects Quiet (lock {J = J} h)
  Quiet-lock = locks Quiet-order

  pub Quiet-until {ℓ} :
      {A : Type ℓ} (xs : List A) {fn : A → M J Bool}
      → ((x : A) → Respects Quiet (fn x))
      → Respects Quiet (until xs fn)
  Quiet-until = until-Respects Quiet-order

  pub Frame-bind :
      {h : ℕ} {A B : Type 0} {m : M J A} {f : A → M J B}
      → Respects (Frame h) m
      → ((a : A) → Respects (Frame h) (f a))
      → Respects (Frame h) (m >>= f)
  Frame-bind {h} = bind (Frame-order h)

  pub Frame-then :
      {h : ℕ} {A B : Type 0} {m : M J A} {n : M J B}
      → Respects (Frame h) m
      → Respects (Frame h) n
      → Respects (Frame h) (m >> n)
  Frame-then {h} = then_do (Frame-order h)

  pub Frame-if :
      {h : ℕ} {A : Type 0} (b : Bool) {m n : M J A}
      → Respects (Frame h) m
      → Respects (Frame h) n
      → Respects (Frame h) (if b then m else n)
  Frame-if {h} = if_else (Frame-order h)

  pub Frame-return : {h : ℕ} {A : Type 0} (a : A) → Respects (Frame h) (return {J = J} a)
  Frame-return {h} = returns (Frame-order h)

  pub Frame-ask : {h : ℕ} {A : Type 0} (f : World J → A) → Respects (Frame h) (ask f)
  Frame-ask {h} = asks (Frame-order h)

  pub Frame-done : {h : ℕ} → Respects (Frame h) (done {J = J})
  Frame-done {h} = does_nothing (Frame-order h)

  pub Frame-fetch : {h : ℕ} (j : ℕ) → Respects (Frame h) (fetch {J = J} j)
  Frame-fetch {h} = fetches (Frame-order h)

  pub Frame-or_throw : {h : ℕ} {A : Type 0} (a : Option A) → Respects (Frame h) (or_throw {J = J} a)
  Frame-or_throw {h} = or_throws (Frame-order h)

  pub Frame-lock : {h : ℕ} (j : ℕ) → Respects (Frame h) (lock {J = J} j)
  Frame-lock {h} = locks (Frame-order h)

pub ruleset frame_rules = (
  Frame-bind, Frame-then, Frame-if, Frame-return, Frame-ask, Frame-done, Frame-fetch,
  Frame-or_throw, Frame-lock, modify-Frame,
)

pub ruleset quiet_rules = (
  Quiet-bind, Quiet-then, Quiet-if, Quiet-until, Quiet-return, Quiet-done, Quiet-ask,
  Quiet-or_throw, Quiet-fetch, Quiet-lock, increment_pps-Quiet, disconnect_client-Quiet,
  enqueue-Quiet, note-Quiet, update_ping-Quiet,
)

module _ {J : Type 0} where
  pub send_later-Quiet : (h : ℕ) (s : Bytes) → Respects Quiet (send_later {J = J} h s)
  unfolding send_later
  send_later-Quiet h s = search quiet_rules depth 20
