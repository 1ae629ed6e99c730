-- ===== src/App/Tests.antt =====
-- The application's state at concrete inputs.
use beam_mp_server.Base.{ℕ, ◌≡◌, refl, true, false, [], some}
use beam_mp_server.Base.Dict.{lookup}
use beam_mp_server.Base.Text.{codes}
use beam_mp_server.Versions.{Version}
use beam_mp_server.Versions.{leading_digits}
use beam_mp_server.App.{App, good, is_version_text, check_for_updates, text_eq, update_check}
use beam_mp_server.App.Laws.{check_for_updates_lem}

-- Handlers are numbers here.
abbrev fresh : App ℕ
fresh = record {
  statuses = [];
  is_shutdown = false;
  handlers = [];
  already_shutting_down = false;
  shutdown_attempts = 0;
  first_time = true;
  notices = [];
}

abbrev no_memory : Version
no_memory = record { major = 0; minor = 0; patch = 0 }

version_texts :
    (is_version_text (codes "3.10.0") ≡ true)
    × (is_version_text (codes "3.10") ≡ false)
    × (is_version_text (codes "3.10.0 ") ≡ false)
unfolding is_version_text leading_digits
version_texts = (refl, refl, refl)

check_for_updates_lem_example :
    lookup update_check (check_for_updates no_memory (λ url. codes "3.9.4") fresh).statuses
    ≡ some good
unfolding is_version_text leading_digits
check_for_updates_lem_example =
    (check_for_updates_lem no_memory (λ url. codes "3.9.4") fresh).0 update_check
