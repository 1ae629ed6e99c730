-- ===== src/World.antt =====
-- The server's shared state, what lies outside the program, and the monad in which its methods are
-- written. A client object is named by a handle, as a `shared_ptr` names it: `store` holds the
-- objects that are alive, and `members` is `mClients`, in the order of a pass over it.
pub mod Respects
use beam_mp_server.Base.{
  ℕ, zero, suc, ◌+◌, Bool, true, false, not, ◌&&◌, List, [], ◌∷◌, ◌++◌, Option, none, some, ◌==◌,
  if◌then◌else◌, any_of, nat_eq,
}
use beam_mp_server.Base.Dict.{lookup, adjust}
use beam_mp_server.Base.Ints.{ℤ, pos, negsuc}
use beam_mp_server.Base.Decimal.{to_string}
use beam_mp_server.Base.Text.{Bytes, substr}
use beam_mp_server.Client.{Client}
use beam_mp_server.Compress.{Zlib}

-- `std::to_string` of an `int`.
unfoldable pub print_int : ℤ → Bytes
print_int (pos n) = to_string n
print_int (negsuc n) = b'-' ∷ to_string (suc n)

pub data Arg : Type 0 where
  int_arg : ℤ → Arg
  text_arg : Bytes → Arg
  bool_arg : Bool → Arg
  map_arg : List (Bytes × Bytes) → Arg

-- The detached result of a Lua handler, as far as the server looks at it.
pub data LuaValue : Type 0 where
  int_value : ℤ → LuaValue
  text_value : Bytes → LuaValue
  other_value : LuaValue

pub record LuaResult : Type 0 where
  pub error : Bool
  pub value : LuaValue

abbrev pub is_nonzero : LuaValue → Bool
is_nonzero (int_value (pos n)) = not (n == 0)
is_nonzero (int_value (negsuc n)) = true
is_nonzero (text_value s) = false
is_nonzero other_value = false

-- The lambda by which a handler of a cancellable event vetoes.
abbrev pub vetoes : LuaResult → Bool
vetoes r = not r.error && is_nonzero r.value

-- What the server has done to the world, the newest first. The flag says whether a write worked.
pub data Effect : Type 0 where
  wrote : ℕ → Bytes → Bool → Effect
  sent_udp : ℕ → Bytes → Bool → Effect
  event : Bytes → List Arg → Effect

-- nlohmann::json. `parse` is `none` where the library throws or discards; `member` is `contains`
-- followed by `at`.
pub record Json (J : Type 0) : Type 0 where
  pub parse : Bytes → Option J
  pub dump : J → Bytes
  pub is_null : J → Bool
  pub is_object : J → Bool
  pub is_array : J → Bool
  pub as_string : J → Option Bytes
  pub member : Bytes → J → Option J
  pub set_member : Bytes → J → J → J

-- The libraries, the settings, and the answers of sockets and Lua handlers, which may depend on
-- all that happened before. The handlers run in threads of their own; what they call back into the
-- server is not modelled.
pub record Outside (J : Type 0) : Type 0 where
  pub json : Json J
  pub zlib : Zlib
  pub max_cars : ℤ
  pub max_players : ℤ
  pub map : Bytes
  pub write_works : List Effect → ℕ → Bytes → Bool
  pub udp_works : List Effect → ℕ → Bytes → Bool
  pub handlers : List Effect → Bytes → List Arg → List LuaResult

pub record World (J : Type 0) : Type 0 where
  pub store : List (ℕ × Client J)
  pub members : List ℕ
  pub trace : List Effect
  pub pps : ℕ
  pub now : ℕ

-- A call returns, or throws an exception that its caller does not see.
pub data Outcome (A : Type 0) : Type 0 where
  ok : A → Outcome A
  threw : Outcome A

abbrev pub M : Type 0 → Type 0 → Type 0
M J A = World J → Outcome A × World J

abbrev pub go_on : {J A B : Type 0} → Outcome A × World J → (A → M J B) → Outcome B × World J
go_on (ok a, w) f = f a w
go_on (threw, w) f = (threw, w)

infixl 5 ◌>>=◌ ◌>>◌
unfoldable pub ◌>>=◌ : {J A B : Type 0} → M J A → (A → M J B) → M J B
◌>>=◌ m f w = go_on (m w) f

unfoldable pub ◌>>◌ : {J A B : Type 0} → M J A → M J B → M J B
◌>>◌ m k w = go_on (m w) (λ _. k)

module _ {J : Type 0} where
  unfoldable pub return : {A : Type 0} → A → M J A
  return a w = (ok a, w)

  unfoldable pub done : M J (Unit {0})
  done w = (ok tt, w)

  unfoldable pub ask : {A : Type 0} → (World J → A) → M J A
  ask f w = (ok (f w), w)

  unfoldable pub or_throw : {A : Type 0} → Option A → M J A
  or_throw none w = (threw, w)
  or_throw (some a) w = (ok a, w)

  -- `weak_ptr::lock`.
  unfoldable pub lock : ℕ → M J (Option (Client J))
  lock h w = (ok (lookup h w.store), w)

  -- A read through a reference that the thread holds; the object is alive.
  unfoldable pub fetch : ℕ → M J (Client J)
  fetch h w = or_throw (lookup h w.store) w

  unfoldable pub modify : ℕ → (Client J → Client J) → M J (Unit {0})
  modify h f w = (ok tt, record w { store = adjust h f w.store })

  unfoldable pub note : Effect → M J (Unit {0})
  note e w = (ok tt, record w { trace = e ∷ w.trace })

  -- `ForEachClient` over a copy of the set: on `false` the pass ends.
  unfoldable pub for_each : List ℕ → (ℕ → M J Bool) → M J (Unit {0})
  for_each [] fn = done
  for_each (h ∷ hs) fn = do more ← fn h; if more then for_each hs fn else done

  unfoldable pub for_each_client : (ℕ → M J Bool) → M J (Unit {0})
  for_each_client fn w = for_each w.members fn w

  -- A loop that breaks off when its body says so; whether it did.
  unfoldable pub until {ℓ} : {A : Type ℓ} → List A → (A → M J Bool) → M J Bool
  until [] fn = return false
  until (x ∷ xs) fn = do stop ← fn x; if stop then return true else until xs fn

  unfoldable pub increment_pps : M J (Unit {0})
  increment_pps w = (ok tt, record w { pps = w.pps + 1 })

-- `TriggerEvent`, and the results once the handlers are done.
unfoldable pub trigger : {J : Type 0} → Outside J → Bytes → List Arg → M J (List LuaResult)
trigger o name args w =
    (ok (o.handlers w.trace name args), record w { trace = event name args ∷ w.trace })
