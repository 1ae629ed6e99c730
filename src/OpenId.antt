-- ===== src/OpenId.antt =====
-- The search for a free id that `TClient::GetOpenCarID` (src/Client.cpp) and `TNetwork::OpenID`
-- (src/TNetwork.cpp) write out alike: passes over the ids in use, until one pass meets no clash.
pub mod Laws
use beam_mp_server.Base.{ℕ, zero, suc, ◌+◌, max, Bool, true, false, List, [], ◌∷◌, if◌then◌else◌}
use beam_mp_server.Base.Ints.{ℤ, pos, negsuc, is_id}

-- One pass: the id, raised at each clash, and `found`.
unfoldable pub pass : ℕ → Bool → List ℤ → ℕ × Bool
pass id found [] = (id, found)
pass id found (t ∷ taken) =
    pass (if is_id t id then id + 1 else id) (if is_id t id then false else found) taken

-- `do … while (!found)` on fuel: the id, and whether the loop ended by its test.
unfoldable pub passes : ℕ → ℕ → List ℤ → ℕ × Bool
passes zero id taken = (id, false)
passes (suc fuel) id taken =
    let (id', found) = pass id true taken in
    let rest = passes fuel id' taken in if found then (id', true) else rest

unfoldable pub largest : List ℤ → ℕ
largest [] = 0
largest (pos n ∷ taken) = max n (largest taken)
largest (negsuc n ∷ taken) = largest taken

-- Each pass but the last raises the id, and an id above all those in use meets no clash.
unfoldable pub open_id : List ℤ → ℕ
open_id taken = (passes (largest taken + 2) 0 taken).0
