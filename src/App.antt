-- ===== src/App.antt =====
-- `Application` of include/Common.h and src/Common.cpp: the subsystems' states, the shutdown, and
-- the check for updates, with the functions' own static variables as fields. What a handler does
-- is left out, and what the backend answers is a parameter.
pub mod Laws
mod Tests
use beam_mp_server.Base.{
  ℕ, suc, ◌+◌, ◌%◌, Bool, true, false, ◌&&◌, List, [], ◌∷◌, ◌++◌, Option, none, some, ◌==◌,
  if◌then◌else◌, drop, length, is_empty, list_beq, list_beq_iff, Eq,
}
use beam_mp_server.Base.Dict.{lookup, insert}
use beam_mp_server.Base.Text.{Bytes, codes}
use beam_mp_server.Versions.{Version, is_outdated, leading_digits, version_str_to_ints}

pub data Status : Type 0 where
  starting good bad shutting_down shut_down : Status

-- What the check for updates prints.
pub data Notice : Type 0 where
  new_version : Version → Notice
  up_to_date unable_to_fetch : Notice

pub record App {ℓ} (H : Type ℓ) : Type ℓ where
  pub statuses : List (Bytes × Status)
  pub is_shutdown : Bool
  pub handlers : List H
  pub already_shutting_down : Bool
  pub shutdown_attempts : ℕ
  pub first_time : Bool
  pub notices : List Notice

instance abbrev pub text_eq : Eq Bytes
text_eq = record { beq = list_beq; beq_iff = list_beq_iff }

pub data Shutdown {ℓ} (H : Type ℓ) : Type ℓ where
  hard_shutdown already_shutting : Shutdown H
  ran : List H → Shutdown H

-- `GetBackendUrlsInOrder`, and `mVersion`.
unfoldable pub get_backend_urls_in_order : List Bytes
get_backend_urls_in_order = codes "https://backend.beammp.com" ∷ []

unfoldable pub server_version : Version
server_version = record { major = 3; minor = 9; patch = 3 }

abbrev pub update_check : Bytes
update_check = codes "UpdateCheck"

-- `VersionRegex`: three numbers with dots between them, and line feeds.
abbrev pub and_then : (Bytes → Option Bytes) → Option Bytes → Option Bytes
and_then f none = none
and_then f (some s) = f s

abbrev pub after_number : Bytes → Option Bytes
after_number s =
    let digits = leading_digits s in if is_empty digits then none else some (drop (length digits) s)

abbrev pub after_dot : Bytes → Option Bytes
after_dot [] = none
after_dot (c ∷ s) = if c == b'.' then some s else none

abbrev pub only_line_feeds : Bytes → Bool
only_line_feeds [] = true
only_line_feeds (c ∷ s) = c == 10 && only_line_feeds s

abbrev pub ends : Option Bytes → Bool
ends none = false
ends (some s) = only_line_feeds s

unfoldable pub is_version_text : Bytes → Bool
is_version_text s = ends (
    and_then after_number
      (and_then after_dot (and_then after_number (and_then after_dot (after_number s)))))

abbrev pub is_bad : Option Status → Bool
is_bad none = false
is_bad (some s) = elim s [ bad ↦ true | _ ↦ false ]

module _ {ℓ} {H : Type ℓ} where
  -- An empty `std::function` is left out.
  unfoldable pub register_shutdown_handler : Option H → App H → App H
  register_shutdown_handler none a = a
  register_shutdown_handler (some h) a = record a { handlers = h ∷ a.handlers }

  unfoldable pub set_shutdown : Bool → App H → App H
  set_shutdown b a = record a { is_shutdown = b }

  -- One call, under the mutex; the attempts are counted in a `uint8_t`.
  unfoldable pub gracefully_shutdown : App H → Shutdown H × App H
  gracefully_shutdown a =
      let stopped = set_shutdown true a in
      let counted = record stopped { shutdown_attempts = (a.shutdown_attempts + 1) % 256 } in
      if a.already_shutting_down
      then if counted.shutdown_attempts == 2
        then (hard_shutdown, counted)
        else (already_shutting, counted)
      else (ran a.handlers, record stopped { already_shutting_down = true })

  unfoldable pub set_subsystem_status : Bytes → Status → App H → App H
  set_subsystem_status name status a = record a { statuses = insert name status a.statuses }

  abbrev pub notify : Notice → App H → App H
  notify n a = record a { notices = a.notices ++ n ∷ [] }

  unfoldable pub compare_version : Version → App H → App H
  compare_version remote a =
      if is_outdated server_version remote
      then notify (new_version remote) a
      else if a.first_time
      then notify up_to_date a
      else a

  -- The first failure of all is the only one that is recorded.
  unfoldable pub fetch_failed : App H → App H
  fetch_failed a = if a.first_time then set_subsystem_status update_check bad a else a

  module _ (memory : Version) (http_get : Bytes → Bytes) where
    unfoldable pub check_urls : List Bytes → App H → App H
    check_urls [] a = a
    check_urls (url ∷ urls) a =
        let response = http_get (url ++ codes "/v/s") in
        let rest = check_urls urls (fetch_failed a) in
        if is_version_text response
        then set_subsystem_status update_check good
            (compare_version (version_str_to_ints memory response) a)
        else rest

    unfoldable pub check_for_updates : App H → App H
    check_for_updates a =
        let checked =
          check_urls get_backend_urls_in_order (set_subsystem_status update_check starting a) in
        let told =
          if is_bad (lookup update_check checked.statuses) && checked.first_time
          then notify unable_to_fetch checked
          else checked in
        record told { first_time = false }
