-- ===== src/Download.antt =====
-- The download of the mods while a player joins: `Parse`, `SendFile` and `SendFileToClient` of
-- src/TNetwork.cpp, the last as it is compiled for Linux. The file system, the list of mods and
-- the answers of `sendfile` are parameters.
pub mod Laws
use beam_mp_server.Base.{
  ℕ, ◌+◌, Bool, true, false, not, ◌&&◌, List, [], ◌∷◌, ◌++◌, Option, none, some, ltb, ◌==◌,
  if◌then◌else◌, length, take, drop, any_of, list_beq, nat_eq,
}
use beam_mp_server.Base.Text.{Bytes, codes}
use beam_mp_server.World.{Outside, World, M, ◌>>=◌, ◌>>◌, return, done, note, Effect, wrote}
use beam_mp_server.Network.{client_kick, disconnect_client, tcp_send}
use beam_mp_server.Vehicles.{byte_at}

-- What one call of `sendfile` returns: a count, -1 with EINTR, EAGAIN or EWOULDBLOCK, or -1 with
-- another error.
pub data SysResult : Type 0 where
  sent : ℕ → SysResult
  interrupted would_block failed : SysResult

-- How the loop ended; `waiting` when it has not ended on the answers given.
pub data Transfer : Type 0 where
  finished returned_zero call_failed waiting : Transfer

pub record Mod : Type 0 where
  pub file_name : Bytes
  pub is_protected : Bool

-- `std::filesystem` and the resource manager. `contents` is `none` for a file that does not exist.
pub record Files : Type 0 where
  pub has_filename : Bytes → Bool
  pub filename : Bytes → Bytes
  pub contents : Bytes → Option Bytes
  pub can_open : Bytes → Bool
  pub answers : Bytes → List SysResult
  pub mods : List Mod
  pub mod_info : Bytes
  pub resource_folder : Bytes

-- The loop: the pieces of the file that were sent, and how it ended. `sendfile` reads from the
-- offset that it is given.
unfoldable pub send_pieces : Bytes → ℕ → List SysResult → List Bytes × Transfer
send_pieces file at [] = ([], if ltb at (length file) then waiting else finished)
send_pieces file at (sent n ∷ rs) =
    let rest = send_pieces file (at + n) rs in
    if not (ltb at (length file))
    then ([], finished)
    else if n == 0
    then ([], returned_zero)
    else (take n (drop at file) ∷ rest.0, rest.1)
send_pieces file at (interrupted ∷ rs) =
    let rest = send_pieces file at rs in if ltb at (length file) then rest else ([], finished)
send_pieces file at (would_block ∷ rs) =
    let rest = send_pieces file at rs in if ltb at (length file) then rest else ([], finished)
send_pieces file at (failed ∷ rs) = ([], if ltb at (length file) then call_failed else finished)

-- A mod of that name that may not be downloaded.
unfoldable pub is_protected_mod : Bytes → List Mod → Bool
is_protected_mod name mods = any_of (λ m. list_beq m.file_name name && m.is_protected) mods

abbrev pub must_disconnect : Transfer → Bool
must_disconnect finished = false
must_disconnect returned_zero = true
must_disconnect call_failed = true
must_disconnect waiting = false

module _ {J : Type 0} (o : Outside J) (files : Files) where
  unfoldable pub note_pieces : ℕ → List Bytes → M J (Unit {0})
  note_pieces h [] = done
  note_pieces h (p ∷ ps) = do note (wrote h p true); note_pieces h ps

  unfoldable pub send_file_to_client : ℕ → Bytes → Bytes → M J (Unit {0})
  send_file_to_client h path file =
      if files.can_open path
      then (do
        note_pieces h (send_pieces file 0 (files.answers path)).0
        if must_disconnect (send_pieces file 0 (files.answers path)).1
            then disconnect_client h
            else done)
      else done

  unfoldable pub send_contents : ℕ → Bytes → Option Bytes → M J (Unit {0})
  send_contents h path none = do tcp_send o h (codes "CO") false; done
  send_contents h path (some file) = do
    tcp_send o h (codes "AG") false
    send_file_to_client h path file

  abbrev pub client_path : Bytes → Bytes
  client_path name = files.resource_folder ++ codes "/Client/" ++ name

  unfoldable pub send_file : ℕ → Bytes → M J (Unit {0})
  send_file h unsafe_name =
      if not (files.has_filename unsafe_name)
      then (do tcp_send o h (codes "CO") false; done)
      else if is_protected_mod (files.filename unsafe_name) files.mods
      then disconnect_client h
      else send_contents h (client_path (files.filename unsafe_name))
          (files.contents (client_path (files.filename unsafe_name)))

  unfoldable pub send_mod_info : ℕ → M J (Unit {0})
  send_mod_info h = do
    works ← tcp_send o h files.mod_info false
    if works then done else client_kick o h (codes "TCP Send 'SY' failed")

  -- `byte_at` is 0 where the packet is shorter, as `SubCode` is.
  unfoldable pub parse : ℕ → Bytes → M J (Unit {0})
  parse h packet =
      if byte_at 0 packet == b'f'
      then send_file h (drop 1 packet)
      else if byte_at 0 packet == b'S' && byte_at 1 packet == b'R'
      then send_mod_info h
      else done
