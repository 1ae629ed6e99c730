-- ===== src/Session/Admission.antt =====
-- Who may join.
use beam_mp_server.Base.{
  ℕ, ◌≡◌, ◌↔◌, refl, Bool, true, false, not, ◌&&◌, ◌||◌, List, [], ◌∷◌, none, arith, ltb, ◌==◌,
  any_of,
}
use beam_mp_server.Base.Ints.{pos}
use beam_mp_server.World.{LuaResult, int_value, text_value}
use beam_mp_server.Session.{verdict, handler_reason, House, admitted, full_reason, reason, decide}

-- A handler that ran without an error and returned the number.
abbrev pub returned_number : ℕ → LuaResult → Bool
returned_number n r = elim r.value [ int_value (pos m) ↦ not r.error && m == n | _ ↦ false ]

abbrev pub returned_text : LuaResult → Bool
returned_text r = elim r.value [ text_value s ↦ not r.error | _ ↦ false ]

verdict_refused :
    (b : Bool) (rs : List LuaResult) → (verdict b rs).0 ≡ any_of (returned_number 1) rs
unfolding verdict
verdict_refused b [] = refl
verdict_refused b (r ∷ rs) = ground (arith, verdict_refused b rs, verdict_refused true rs)

verdict_bypass :
    (b : Bool) (rs : List LuaResult)
    → any_of (returned_number 1) rs ≡ false
    → (verdict b rs).1 ≡ (b || any_of (returned_number 2) rs)
unfolding verdict
verdict_bypass b [] h = ground arith
verdict_bypass b (r ∷ rs) h = ground (arith, verdict_bypass b rs, verdict_bypass true rs)

handler_reason-none :
    (rs : List LuaResult) → (handler_reason rs ≡ none) ↔ (any_of returned_text rs ≡ false)
unfolding handler_reason
handler_reason-none [] = ground arith
handler_reason-none (r ∷ rs) = ground (arith, handler_reason-none rs)

-- A player is admitted exactly if no handler of `onPlayerAuth` returned 1 or a text without an
-- error, the player is no guest or guests are allowed, and there is room or some handler returned
-- 2 without an error; the order of the handlers is of no account.
pub decide_iff :
    (house : House) (is_guest : Bool) (rs : List LuaResult)
    → (decide house is_guest rs ≡ admitted) ↔ (
        (any_of (returned_number 1) rs ≡ false)
        × (any_of returned_text rs ≡ false)
        × ((house.allow_guests || not is_guest) ≡ true)
        × ((ltb house.client_count house.max_players || any_of (returned_number 2) rs) ≡ true))
unfolding decide reason full_reason
decide_iff house is_guest rs =
    ground (arith, verdict_refused false rs, verdict_bypass false rs, handler_reason-none rs)
