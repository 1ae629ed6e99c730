-- ===== src/App/Laws.antt =====
-- What a run of requests to shut down does, and what a check for updates records.
use beam_mp_server.Base.{
  ℕ, suc, zero, ◌≡◌, refl, sym, ap, ◌∙◌, Bool, true, false, List, [], ◌∷◌, ◌++◌, Option, none, some,
  if◌then◌else◌, append_assoc, Bool-cases, list_beq, inl, inr,
}
use beam_mp_server.Base.Dict.{lookup, insert, lookup-insert}
use beam_mp_server.Base.Text.{Bytes, codes}
use beam_mp_server.Versions.{Version, is_outdated, version_str_to_ints}
use beam_mp_server.App.{
  App, Status, Notice, starting, good, bad, Shutdown, hard_shutdown, already_shutting, ran,
  register_shutdown_handler, gracefully_shutdown, set_shutdown, set_subsystem_status,
  check_for_updates, check_urls, fetch_failed, compare_version, get_backend_urls_in_order,
  is_version_text, server_version, update_check, notify, up_to_date, unable_to_fetch, text_eq,
}

abbrev then_status : Option Status → List (Bytes × Status) → List (Bytes × Status)
then_status none m = m
then_status (some s) m = insert update_check s m

-- The state set first, and one that may be set after it.
lookup_after :
    (name : Bytes) (m : List (Bytes × Status)) (s : Option Status)
    → lookup name (then_status s (insert update_check starting m)) ≡ (
        if list_beq update_check name
        then some (elim s [ none ↦ starting | some t ↦ t ])
        else lookup name m)
lookup_after name m none = lookup-insert update_check name starting m
lookup_after name m (some s) =
    rw
      (
        lookup-insert update_check name s (insert update_check starting m),
        lookup-insert update_check name starting m,
      )
      (absorbed (list_beq update_check name))
  where
    absorbed :
        (b : Bool)
        → (if b then some s else if b then some starting else lookup name m)
          ≡ (if b then some s else lookup name m)
    absorbed true = refl
    absorbed false = refl

-- What the check sets after `Starting`.
abbrev outcome : Bool → Bool → Option Status
outcome true first = some good
outcome false first = if first then some bad else none

named_outcome :
    (b first same : Bool) (other : Option Status)
    → (if same then some (elim (outcome b first) [ none ↦ starting | some t ↦ t ]) else other)
      ≡ (if same then some (if b then good else if first then bad else starting) else other)
named_outcome true first same other = refl
named_outcome false true same other = refl
named_outcome false false same other = refl

module _ {ℓ} {H : Type ℓ} where
  abbrev pub register_all : List (Option H) → App H → App H
  register_all [] a = a
  register_all (h ∷ hs) a = register_all hs (register_shutdown_handler h a)

  -- The handlers that are there, the last one first.
  abbrev pub newest_first : List (Option H) → List H
  newest_first [] = []
  newest_first (none ∷ hs) = newest_first hs
  newest_first (some h ∷ hs) = newest_first hs ++ h ∷ []

  -- The answers to requests that come one after another, up to the one that ends the process.
  abbrev pub requests : ℕ → App H → List (Shutdown H)
  requests zero a = []
  requests (suc n) a =
      let answer = gracefully_shutdown a in
      let rest = requests n answer.1 in
      elim answer.0 [ hard_shutdown ↦ hard_shutdown ∷ [] | other ↦ other ∷ rest ]

  register_all-handlers :
      (hs : List (Option H)) (a : App H)
      → (register_all hs a).handlers ≡ newest_first hs ++ a.handlers
  unfolding register_shutdown_handler
  register_all-handlers [] a = refl
  register_all-handlers (none ∷ hs) a = register_all-handlers hs a
  register_all-handlers (some h ∷ hs) a =
      register_all-handlers hs (record a { handlers = h ∷ a.handlers })
      ∙ sym (append_assoc (newest_first hs) (h ∷ []) a.handlers)

  register_all-flag :
      (hs : List (Option H)) (a : App H)
      → (register_all hs a).already_shutting_down ≡ a.already_shutting_down
  unfolding register_shutdown_handler
  register_all-flag [] a = refl
  register_all-flag (none ∷ hs) a = register_all-flag hs a
  register_all-flag (some h ∷ hs) a = register_all-flag hs (record a { handlers = h ∷ a.handlers })

  register_all-attempts :
      (hs : List (Option H)) (a : App H)
      → (register_all hs a).shutdown_attempts ≡ a.shutdown_attempts
  unfolding register_shutdown_handler
  register_all-attempts [] a = refl
  register_all-attempts (none ∷ hs) a = register_all-attempts hs a
  register_all-attempts (some h ∷ hs) a =
      register_all-attempts hs (record a { handlers = h ∷ a.handlers })

  three_requests :
      (n : ℕ) (a : App H)
      → a.already_shutting_down ≡ false
      → a.shutdown_attempts ≡ 0
      → requests (suc (suc (suc n))) a ≡ ran a.handlers ∷ already_shutting ∷ hard_shutdown ∷ []
  unfolding gracefully_shutdown set_shutdown
  three_requests n a h k =
      ap (requests (suc (suc (suc n)))) (ap (λ b. with b a.shutdown_attempts) h ∙ ap (with false) k)
    where
      with : Bool → ℕ → App H
      with b m = record a { already_shutting_down = b; shutdown_attempts = m }

  -- Where no request to shut down came yet, and handlers are registered, some of them empty: of
  -- three requests or more, the first runs each handler that is not empty once, the newest first,
  -- then those that were there before; the second runs none; and the third ends the process.
  requests-register_all :
      (n : ℕ) (hs : List (Option H)) (a : App H)
      → a.already_shutting_down ≡ false
      → a.shutdown_attempts ≡ 0
      → requests (suc (suc (suc n))) (register_all hs a)
        ≡ ran (newest_first hs ++ a.handlers) ∷ already_shutting ∷ hard_shutdown ∷ []
  requests-register_all n hs a h k =
      three_requests n (register_all hs a) (register_all-flag hs a ∙ h)
        (register_all-attempts hs a ∙ k)
      ∙ ap (λ all. ran all ∷ already_shutting ∷ hard_shutdown ∷ []) (register_all-handlers hs a)

  notify_statuses :
      (b : Bool) (n : Notice) (a : App H) → (if b then notify n a else a).statuses ≡ a.statuses
  notify_statuses true n a = refl
  notify_statuses false n a = refl

  compare_version-statuses : (v : Version) (a : App H) → (compare_version v a).statuses ≡ a.statuses
  unfolding compare_version
  compare_version-statuses v a = elim (Bool-cases (is_outdated server_version v)) [
    | inl t ↦ rw t refl
    | inr f ↦ rw f (notify_statuses a.first_time up_to_date a)
  ]

  fetch_failed-statuses :
      (a : App H)
      → (fetch_failed a).statuses ≡ then_status (if a.first_time then some bad else none) a.statuses
  unfolding fetch_failed set_subsystem_status
  fetch_failed-statuses a = elim (Bool-cases a.first_time) [ inl t ↦ rw t refl | inr f ↦ rw f refl ]

  check_urls-statuses :
      (memory : Version) (http_get : Bytes → Bytes) (url : Bytes) (a : App H)
      → (check_urls memory http_get (url ∷ []) a).statuses
        ≡ then_status
            (outcome (is_version_text (http_get (url ++ codes "/v/s"))) a.first_time)
            a.statuses
  unfolding check_urls set_subsystem_status
  check_urls-statuses memory http_get url a = go (is_version_text response)
    where
      response : Bytes
      response = http_get (url ++ codes "/v/s")

      compared : App H
      compared = compare_version (version_str_to_ints memory response) a

      go :
          (b : Bool)
          → (if b then set_subsystem_status update_check good compared else fetch_failed a).statuses
            ≡ then_status (outcome b a.first_time) a.statuses
      go true =
          ap (insert update_check good)
            (compare_version-statuses (version_str_to_ints memory response) a)
      go false = fetch_failed-statuses a

  -- A check for updates leaves its subsystem as good if the backend's answer is a version, as bad if
  -- it is not and this is the first check, and as starting if it is not and this is a later one; it
  -- leaves the other subsystems as they were, and is not the first any more.
  pub check_for_updates_lem :
      (memory : Version) (http_get : Bytes → Bytes) (a : App H)
      → ((name : Bytes)
          → lookup name (check_for_updates memory http_get a).statuses ≡ (
              if list_beq update_check name
              then some (
                  if is_version_text (http_get (codes "https://backend.beammp.com/v/s"))
                  then good
                  else if a.first_time
                  then bad
                  else starting)
              else lookup name a.statuses))
        × ((check_for_updates memory http_get a).first_time ≡ false)
  unfolding check_for_updates get_backend_urls_in_order set_subsystem_status
  check_for_updates_lem memory http_get a = (
    (λ name.
        ap (lookup name) (
          notify_statuses _ unable_to_fetch _
          ∙ check_urls-statuses memory http_get (codes "https://backend.beammp.com") begun)
        ∙ lookup_after name a.statuses (
            outcome (is_version_text (http_get (codes "https://backend.beammp.com/v/s")))
              a.first_time)
        ∙ named_outcome (is_version_text (http_get (codes "https://backend.beammp.com/v/s")))
            a.first_time (list_beq update_check name) (lookup name a.statuses)),
    refl,
  )
    where
      begun : App H
      begun = set_subsystem_status update_check starting a
