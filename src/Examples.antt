-- ===== src/Examples.antt =====
-- Concrete libraries, clients and a world, and under it the theorems at inputs that meet their
-- hypotheses.
mod Services
mod Traffic
mod Plugins
use beam_mp_server.Base.{
  ℕ, ◌≤◌, ◌≡◌, refl, Bool, true, false, List, [], ◌∷◌, Option, none, some, arith, leb,
  if◌then◌else◌, length,
}
use beam_mp_server.Base.Ints.{ℤ, pos}
use beam_mp_server.Base.Text.{Bytes, codes}
use beam_mp_server.Client.{Client, new_client}
use beam_mp_server.Compress.{ZResult, z_ok, z_buf_error, Zlib}
use beam_mp_server.Compress.Laws.{IsZlib}
use beam_mp_server.World.{Json, Outside, World, LuaResult, LuaValue, int_value, other_value}
use beam_mp_server.Download.{Files, sent, interrupted}

-- Documents that are kept as they are written.
abbrev pub plain_json : Json Bytes
plain_json = record {
  parse = λ s. some s;
  dump = λ s. s;
  is_null = λ s. false;
  is_object = λ s. true;
  is_array = λ s. true;
  as_string = λ s. some s;
  member = λ key s. none;
  set_member = λ key v s. s;
}

-- A compression that stores its input.
abbrev pub stored : Zlib
stored = record {
  compress_bound = λ n. n;
  compress = λ size s. z_ok s;
  uncompress = λ size d. if leb (length d) size then z_ok d else z_buf_error;
}

pub stored-IsZlib : IsZlib stored
stored-IsZlib = record {
  restores = λ s d size e le. ground arith;
  overflows = λ s d size e lt. ground arith;
}

abbrev pub outside : Outside Bytes
outside = record {
  json = plain_json;
  zlib = stored;
  max_cars = pos 1;
  max_players = pos 8;
  map = codes "/levels/gridmap_v2/info.json";
  write_works = λ trace h s. true;
  udp_works = λ trace a s. true;
  handlers = λ trace name args. [];
}

abbrev pub alice : Client Bytes
unfolding new_client
alice = record (new_client 0) {
  id = pos 0;
  name = codes "alice";
  is_synced = true;
  is_udp_connected = true;
  udp_addr = some 7;
  missed = codes "O1" ∷ codes "O2" ∷ [];
}

abbrev pub bob : Client Bytes
unfolding new_client
bob = record (new_client 0) { id = pos 1; name = codes "bob"; is_synced = true }

abbrev pub world : World Bytes
world = record {
  store = (1, alice) ∷ (2, bob) ∷ [];
  members = 1 ∷ 2 ∷ [];
  trace = [];
  pps = 0;
  now = 5;
}
