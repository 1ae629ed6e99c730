-- ===== src/Ids.antt =====
-- The vehicle ids of packets: `GetPidVid` and `ParsePositionPacket` of src/TServer.cpp.
pub mod Laws
pub mod Tests
use beam_mp_server.Base.{
  ℕ, suc, ◌+◌, ◌-◌, ◌≤◌, Bool, ◌&&◌, Option, none, some, ltb, leb, ◌==◌, if◌then◌else◌, length,
  take, drop,
}
use beam_mp_server.Base.Decimal.{all_digits, stoi}
use beam_mp_server.Base.Text.{Bytes, find, up_to}

-- `str.substr(sep + 1)` for the result `sep` of a `find`: `npos + 1` is 0, so that the whole text
-- follows a separator that is not there.
unfoldable pub after_sep : Option ℕ → Bytes → Bytes
after_sep none s = s
after_sep (some i) s = drop (i + 1) s

-- The pair of the two ids, if both were read.
abbrev pub both : Option ℕ → Option ℕ → Option (ℕ × ℕ)
both none v = none
both (some p) none = none
both (some p) (some v) = some (p, v)

unfoldable pub get_pid_vid : Bytes → Option (ℕ × ℕ)
get_pid_vid s =
    let sep = find b'-' s in
    let pid = up_to sep s in
    let vid = after_sep sep s in
    if all_digits pid && all_digits vid then both (stoi pid) (stoi vid) else none

pub record PidVidData : Type 0 where
  pub pid : ℕ
  pub vid : ℕ
  pub body : Bytes

abbrev pub with_body : Option (ℕ × ℕ) → Bytes → Option PidVidData
with_body none body = none
with_body (some (pid, vid)) body = some (record { pid = pid; vid = vid; body = body })

-- What follows from the position of the first brace.
unfoldable pub position_at : Option ℕ → Bytes → Option PidVidData
position_at none s = none
position_at (some begin) s =
    if begin == 0 then none else with_body (get_pid_vid (take (begin - 1) s)) (drop begin s)

unfoldable pub parse_position_packet : Bytes → Option PidVidData
parse_position_packet packet =
    if ltb (length packet) 3 then none else position_at (find b'{' (drop 3 packet)) (drop 3 packet)
