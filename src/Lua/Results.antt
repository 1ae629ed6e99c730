-- ===== src/Lua/Results.antt =====
-- src/TLuaResult.cpp: the results that handlers and scripts leave behind, each method one step
-- under the result's mutex.
use beam_mp_server.Base.{Bool, true, false, Option, none, some, []}
use beam_mp_server.Base.Text.{Bytes, codes}
use beam_mp_server.Lua.Values.{LuaObject, Detached, monostate, Floating}
use beam_mp_server.Lua.Freeze.{Frozen, froze, failed, freeze}

-- `TLuaResult`, of a function call.
pub record CallResult : Type 0 where
  pub ready : Bool
  pub error : Bool
  pub error_message : Bytes
  pub detached : Detached
  pub state_id : Bytes
  pub function : Bytes

unfoldable pub new_call_result : Bytes → Bytes → CallResult
new_call_result state function = record {
  ready = false;
  error = false;
  error_message = [];
  detached = monostate;
  state_id = state;
  function = function;
}

-- What a call of a Lua function gives: its value, or the error object's text where it is a text.
pub data Returned : Type 0 where
  valid : LuaObject → Returned
  invalid : Option Bytes → Returned

unfoldable pub error_text : Option Bytes → Bytes
error_text none = codes "(unknown error; error object is not inspectable)"
error_text (some what) = what

-- The result afterwards and, as `false`, the exception of `Freeze`.
abbrev pub frozen_into : Frozen Detached → CallResult → Bool × CallResult
frozen_into (froze v) r = (true, record r { error = false; detached = v; ready = true })
frozen_into (failed e) r = (false, record r { error = false })

unfoldable pub mark_ready_success : Floating → LuaObject → CallResult → Bool × CallResult
mark_ready_success p o r = frozen_into (freeze p 0 o) r

unfoldable pub mark_ready_success_no_result : CallResult → CallResult
mark_ready_success_no_result r = record r { error = false; detached = monostate; ready = true }

unfoldable pub mark_ready_error : Bytes → CallResult → CallResult
mark_ready_error message r = record r { error = true; error_message = message; ready = true }

unfoldable pub mark_ready_invalid : Option Bytes → CallResult → CallResult
mark_ready_invalid what r = record r { error = true; error_message = error_text what; ready = true }

unfoldable pub set_owner_state : Bytes → CallResult → CallResult
set_owner_state state r = record r { state_id = state }
