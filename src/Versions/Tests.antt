-- ===== src/Versions/Tests.antt =====
-- Versions at concrete numbers, and the theorem there.
use beam_mp_server.Base.{◌≡◌, refl, false}
use beam_mp_server.Base.Decimal.{to_string, digits_of}
use beam_mp_server.Base.Text.{codes}
use beam_mp_server.Versions.{Version, as_string, is_outdated}

abbrev old : Version
old = record { major = 1; minor = 9; patch = 9 }

abbrev new : Version
new = record { major = 2; minor = 0; patch = 0 }

version_tests :
    (is_outdated old old ≡ false) × (is_outdated new old ≡ false) × (as_string old ≡ codes "1.9.9")
unfolding is_outdated as_string to_string digits_of
version_tests = (refl, refl, refl)
