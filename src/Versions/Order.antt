-- ===== src/Versions/Order.antt =====
-- Versions are compared as numbers of three digits are.
use beam_mp_server.Base.{ℕ, ◌+◌, ◌*◌, ◌<◌, ◌≡◌, ◌↔◌, true, arith}
use beam_mp_server.Versions.{Version, is_outdated}

-- The three bytes as the digits of one number.
abbrev pub rank : Version → ℕ
rank v = (v.major * 256 + v.minor) * 256 + v.patch

abbrev pub IsByteTriple : Version → Type 0
IsByteTriple v = (v.major < 256) × (v.minor < 256) × (v.patch < 256)

-- For numbers that are bytes, a version is outdated exactly if its three numbers, read as the
-- digits of one number, are less than those of the newest version.
pub is_outdated_iff :
    (current newest : Version)
    → IsByteTriple current
    → IsByteTriple newest
    → (is_outdated current newest ≡ true) ↔ (rank current < rank newest)
unfolding is_outdated
is_outdated_iff current newest hc hn = ground arith
