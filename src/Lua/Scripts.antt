-- ===== src/Lua/Scripts.antt =====
-- src/TLuaResult.cpp: `TLuaVoidResult`, the result of a script.
use beam_mp_server.Base.{Bool, true, false, Option, []}
use beam_mp_server.Base.Text.{Bytes}
use beam_mp_server.Lua.Results.{error_text}

pub record ScriptResult : Type 0 where
  pub ready : Bool
  pub error : Bool
  pub error_message : Bytes
  pub state_id : Bytes

unfoldable pub new_script_result : Bytes → ScriptResult
new_script_result state = record {
  ready = false;
  error = false;
  error_message = [];
  state_id = state;
}

unfoldable pub mark_ready_success : ScriptResult → ScriptResult
mark_ready_success r = record r { error = false; error_message = []; ready = true }

unfoldable pub mark_ready_error : Bytes → ScriptResult → ScriptResult
mark_ready_error message r = record r { error = true; error_message = message; ready = true }

unfoldable pub mark_ready_invalid : Option Bytes → ScriptResult → ScriptResult
mark_ready_invalid what r = record r { error = true; error_message = error_text what; ready = true }
