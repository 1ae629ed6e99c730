-- ===== src/Limiter/Guards.antt =====
-- `TGuard`: a connection is given back once, wherever the guard was moved to.
use beam_mp_server.Base.{◌≡◌, refl, if◌then◌else◌, arith}
use beam_mp_server.Limiter.{Limiter, Guard, no_guard, release, release_guard, move_guard}

-- Moving a guard into a fresh one changes nothing in the limiter; when then both are destroyed, in
-- this order or the other, the limiter is that after one release of the first guard, and a second
-- release of either changes nothing.
move_guard-release_once :
    (g : Guard) (l later : Limiter)
    → let moved = move_guard no_guard g l in
      (moved.2 ≡ l)
      × ((release_guard moved.0 (release_guard moved.1 l).1).1
          ≡ (if g.owned then release g.ip l else l))
      × ((release_guard moved.1 (release_guard moved.0 l).1).1
          ≡ (if g.owned then release g.ip l else l))
      × ((release_guard (release_guard moved.0 l).0 later).1 ≡ later)
      × ((release_guard (release_guard moved.1 l).0 later).1 ≡ later)
unfolding move_guard release_guard
move_guard-release_once g l later = (refl, ground arith, ground arith, ground arith, ground arith)
