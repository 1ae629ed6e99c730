-- ===== src/Heartbeat/Pace.antt =====
-- How often the backend is told of the server.
use beam_mp_server.Base.{
  ℕ, ◌+◌, ◌-◌, ◌*◌, ◌≤◌, ◌<◌, ◌≡◌, refl, sym, ◌∙◌, Bool, true, false, not, ◌&&◌, ◌||◌, List, [],
  ◌∷◌, Option, none, some, arith, ltb, if◌then◌else◌, list_beq, Bool-cases, inl, inr, subst,
}
use beam_mp_server.Base.Attempt.{◌>>=◌}
use beam_mp_server.Base.Text.{Bytes}
use beam_mp_server.App.{App, get_backend_urls_in_order}
use beam_mp_server.Heartbeat.{
  Call, Heartbeat, ModTotals, Tick, second, generate_call, public_call, keyed_call, post_heartbeat,
  status_of, accepts, after_post, remind, send_or_wait, mark_good, heartbeat_round,
}
use beam_mp_server.Settings.{
  get_as_string, get_as_bool, general_auth_key, general_private, misc_im_scared_of_updates,
  misc_update_reminder_time,
}
use beam_mp_server.Versions.{Version}
use beam_mp_server.World.{Json}

bind_inv {ℓ κ} :
    {A : Type ℓ} {B : Type κ} (m : Option A) (f : A → Option B) (b : B)
    → (m >>= f) ≡ some b
    → (a : A) × (m ≡ some a) × (f a ≡ some b)
bind_inv none f b h = absurd (ground arith)
bind_inv (some a) f b h = (a, refl, h)

-- The pause that the body asks for.
abbrev pub pause : Bytes → Bytes → ℕ
pause last body = (if list_beq last body then 30 else 5) * second

-- Each heartbeat, with its body, comes after the pause that follows the one before.
abbrev pub Spaced : ℕ → Bytes → List (ℕ × Bytes) → Type 0
Spaced time body [] = Unit {0}
Spaced time body ((t, b) ∷ rest) = (time + pause body b ≤ t) × Spaced t b rest

abbrev Waited : Heartbeat → Option ℕ → Heartbeat → Type 0
Waited hb none next =
    (next.last_normal_update_time ≡ hb.last_normal_update_time) × (next.last ≡ hb.last)
Waited hb (some n) next =
    (next.last_normal_update_time ≡ n) × (hb.last_normal_update_time + pause hb.last next.last ≤ n)

abbrev Outcome {ℓ} : Type ℓ → Type ℓ
Outcome H = Option ℕ × (Heartbeat × App H)

some_inj {ℓ} : {A : Type ℓ} (a b : A) → some a ≡ some b → a ≡ b
some_inj a b e = ground arith

pause_pos : (last body : Bytes) → 0 < pause last body
pause_pos last body = elim (Bool-cases (list_beq last body)) [
  | inl b ↦ rw b (omega arith)
  | inr b ↦ rw b (omega arith)
]

late_lem : (n l p : ℕ) → 0 < p → ltb (n - l) p ≡ false → l + p ≤ n
late_lem n l p pos e = ground arith

Waited-from :
    (x y : Heartbeat) (sent : Option ℕ) (next : Heartbeat)
    → x.last_normal_update_time ≡ y.last_normal_update_time
    → x.last ≡ y.last
    → Waited x sent next
    → Waited y sent next
Waited-from x y none next e f w = (w.0 ∙ e, w.1 ∙ f)
Waited-from x y (some n) next e f w = (
  w.0,
  subst (λ b. y.last_normal_update_time + pause b next.last ≤ n) f
      (subst (λ l. l + pause x.last next.last ≤ n) e w.1),
)

with_key_keeps :
    (dump : Call → Bytes) (call : Option Call) (key : Option Bytes) (hb : Heartbeat)
    → ((keyed_call dump call key hb).1.last_normal_update_time ≡ hb.last_normal_update_time)
      × ((keyed_call dump call key hb).1.last ≡ hb.last)
unfolding keyed_call
with_key_keeps dump none key hb = (refl, refl)
with_key_keeps dump (some call) none hb = (refl, refl)
with_key_keeps dump (some call) (some key) hb = (refl, refl)

remind_keeps {ℓ} :
    {J : Type 0} {H : Type ℓ} (memory : Version) (due : Bool) (t : Tick J) (hb : Heartbeat)
    (a : App H)
    → ((remind memory due t (hb, a)).0.last_normal_update_time ≡ hb.last_normal_update_time)
      × ((remind memory due t (hb, a)).0.last ≡ hb.last)
unfolding remind
remind_keeps memory true t hb a = (refl, refl)
remind_keeps memory false t hb a = (refl, refl)

module _ {ℓ} {J : Type 0} {H : Type ℓ} (json : Json J) (dump : Call → Bytes)
    (time_from_string : Bytes → ℕ) (memory client_minimum : Version) (mods : ModTotals) where
  -- The heartbeats of a run of rounds, up to an exception.
  abbrev pub heartbeats : List (Tick J) → Heartbeat × App H → List (ℕ × Bytes)
  heartbeats [] b = []
  heartbeats (t ∷ ts) b =
      elim (heartbeat_round json dump time_from_string memory client_minimum mods t b) [
        | none ↦ []
        | some (none, c) ↦ heartbeats ts c
        | some (some n, c) ↦ (n, c.0.last) ∷ heartbeats ts c
      ]

  after_post_keeps :
      (passed : ℕ) (t : Tick J) (private scared : Bool) (reply : Option J) (hb : Heartbeat)
      (a : App H)
      → ((after_post json dump memory passed t private scared reply
            (hb, a)).0.last_normal_update_time
          ≡ hb.last_normal_update_time)
        × ((after_post json dump memory passed t private scared reply (hb, a)).0.last ≡ hb.last)
  unfolding after_post
  after_post_keeps passed t private scared reply hb a =
      remind_keeps memory (not scared && ltb passed (t.now - hb.last_update_reminder_time)) t
        (record hb {
          is_auth =
              hb.is_auth || (not private && accepts json dump (reply >>= status_of json dump));
        })
        (mark_good
          (hb.is_auth
            || (not private && accepts json dump (reply >>= status_of json dump))
            || private)
          a)

  send_or_wait-Waited :
      (reminder : ℕ) (t : Tick J) (private : Bool) (body : Bytes) (hb : Heartbeat) (a : App H)
      (sent : Option ℕ) (next : Heartbeat × App H)
      → send_or_wait json dump memory reminder t private body (hb, a) ≡ some (sent, next)
      → Waited hb sent next.0
  unfolding send_or_wait
  send_or_wait-Waited reminder t private body hb a sent next h =
      go (ltb (t.now - hb.last_normal_update_time) (pause hb.last body)) refl h
    where
      sending : Bool → Heartbeat × App H
      sending scared =
          after_post json dump memory reminder t private scared
            (post_heartbeat json dump t.post body get_backend_urls_in_order)
            (record hb { last = body; last_normal_update_time = t.now }, a)

      waiting : Outcome H
      waiting = (none, (hb, a))

      sent_now : Bool → Outcome H
      sent_now scared = (some t.now, sending scared)

      answer : Outcome H
      answer = (sent, next)

      WaitedIn : Outcome H → Type 0
      WaitedIn r = Waited hb r.0 r.1.0

      go :
          (b : Bool)
          → ltb (t.now - hb.last_normal_update_time) (pause hb.last body) ≡ b
          → (if b
              then some waiting
              else (get_as_bool misc_im_scared_of_updates t.settings >>= λ scared.
                  some (sent_now scared)))
            ≡ some answer
          → WaitedIn answer
      go true e h = subst WaitedIn (some_inj waiting answer h) (refl, refl)
      go false e h =
          let p =
            bind_inv (get_as_bool misc_im_scared_of_updates t.settings)
              (λ scared. some (sent_now scared)) answer h in
          let keeps =
            after_post_keeps reminder t private p.0
              (post_heartbeat json dump t.post body get_backend_urls_in_order)
              (record hb { last = body; last_normal_update_time = t.now }) a in
          subst WaitedIn (some_inj (sent_now p.0) answer p.2) (
            keeps.0,
            subst (λ b. hb.last_normal_update_time + pause hb.last b ≤ t.now) (sym keeps.1)
                (late e),
          )
        where
          late :
              ltb (t.now - hb.last_normal_update_time) (pause hb.last body) ≡ false
              → hb.last_normal_update_time + pause hb.last body ≤ t.now
          late e =
              late_lem t.now hb.last_normal_update_time (pause hb.last body)
                (pause_pos hb.last body) e

  round-Waited :
      (t : Tick J) (hb : Heartbeat) (a : App H) (sent : Option ℕ) (next : Heartbeat × App H)
      → heartbeat_round json dump time_from_string memory client_minimum mods t (hb, a)
        ≡ some (sent, next)
      → Waited hb sent next.0
  unfolding heartbeat_round generate_call
  round-Waited t hb a sent next h =
      let called = generate_call dump client_minimum mods t.world t.settings hb in
      let keeps =
        with_key_keeps dump (public_call client_minimum mods t.world t.settings)
          (get_as_string general_auth_key t.settings) hb in
      let p = bind_inv (get_as_string misc_update_reminder_time t.settings) _ (sent, next) h in
      let q = bind_inv called.0 _ (sent, next) p.2 in
      let r = bind_inv (get_as_bool general_private t.settings) _ (sent, next) q.2 in
      Waited-from called.1 hb sent next.0 keeps.0 keeps.1
        (send_or_wait-Waited (time_from_string p.0) t r.0 q.0 called.1 a sent next r.2)

  abbrev listed : List (Tick J) → Option (Outcome H) → List (ℕ × Bytes)
  listed ts o = elim o [
    | none ↦ []
    | some (none, c) ↦ heartbeats ts c
    | some (some n, c) ↦ (n, c.0.last) ∷ heartbeats ts c
  ]

  -- The heartbeats of any run of rounds are spaced: from the last one before the run on, each comes 5
  -- seconds at least after the one before it, and 30 seconds at least if it tells the backend
  -- nothing new.
  pub heartbeats-Spaced :
      (ts : List (Tick J)) (hb : Heartbeat) (a : App H)
      → Spaced hb.last_normal_update_time hb.last (heartbeats ts (hb, a))
  heartbeats-Spaced [] hb a = tt
  heartbeats-Spaced (t ∷ ts) hb a =
      go (heartbeat_round json dump time_from_string memory client_minimum mods t (hb, a)) refl
        (λ c. heartbeats-Spaced ts c.0 c.1)
    where
      go :
          (o : Option (Outcome H))
          → heartbeat_round json dump time_from_string memory client_minimum mods t (hb, a) ≡ o
          → ((c : Heartbeat × App H)
              → Spaced c.0.last_normal_update_time c.0.last (heartbeats ts c))
          → Spaced hb.last_normal_update_time hb.last (listed ts o)
      go none e f = tt
      go (some (none, c)) e f =
          let w = round-Waited t hb a none c e in
          subst (λ l. Spaced l hb.last (heartbeats ts c)) w.0
            (subst (λ b. Spaced c.0.last_normal_update_time b (heartbeats ts c)) w.1 (f c))
      go (some (some n, c)) e f =
          let w = round-Waited t hb a (some n) c e in
          (w.1, subst (λ l. Spaced l c.0.last (heartbeats ts c)) w.0 (f c))
