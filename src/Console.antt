-- ===== src/Console.antt =====
-- src/TConsole.cpp: how a command is taken apart, and the commands `kick` and `say`. What the
-- console prints is left out.
pub mod Parsing
pub mod SettingsCommand
mod Fuel
mod Tests
use beam_mp_server.Base.{
  ℕ, zero, suc, ◌+◌, ◌-◌, Bool, true, false, not, ◌&&◌, ◌||◌, List, [], ◌∷◌, ◌++◌, Option, none,
  some, ltb, leb, ◌==◌, if◌then◌else◌, length, take, drop, is_empty, any_of, list_beq,
}
use beam_mp_server.Base.Ints.{pos, negsuc}
use beam_mp_server.Base.Text.{Bytes, codes, find, up_to}
use beam_mp_server.Client.{Client}
use beam_mp_server.World.{
  Outside, World, M, ◌>>=◌, ◌>>◌, return, done, lock, for_each_client, until, ask,
}
use beam_mp_server.Network.{client_kick}
use beam_mp_server.Api.{send_chat_message}

-- `StringStartsWith`.
unfoldable pub string_starts_with : Bytes → Bytes → Bool
string_starts_with what start =
    leb (length start) (length what) && list_beq (take (length start) what) start

-- `EnsureArgsCount` with one number, and with two.
unfoldable pub ensure_count : List Bytes → ℕ → Bool
ensure_count args n =
    if n == 0 && not (is_empty args) then false else if length args == n then true else false

unfoldable pub ensure_args_count : List Bytes → ℕ → ℕ → Bool
ensure_args_count args least most =
    if least == most
    then ensure_count args least
    else if ltb most (length args)
    then false
    else if ltb (length args) least
    then false
    else true

-- Each argument with a space, and the last character cut off.
unfoldable pub with_spaces : List Bytes → Bytes
with_spaces [] = []
with_spaces (arg ∷ args) = arg ++ b' ' ∷ with_spaces args

unfoldable pub concat_args : List Bytes → Bytes
concat_args args =
    let joined = with_spaces args in
    if is_empty joined then joined else take (length joined - 1) joined

-- `isspace`.
abbrev pub is_space : ℕ → Bool
is_space c = c == 32 || (leb 9 c && leb c 13)

abbrev pub is_quote : ℕ → Bool
is_quote c = c == 34 || c == 39 || c == 96

abbrev pub has : ℕ → Bytes → Bool
has c = any_of (λ b. b == c)

unfoldable pub skip_spaces : Bytes → Bytes
skip_spaces [] = []
skip_spaces (c ∷ s) = if is_space c then skip_spaces s else c ∷ s

abbrev pub onto : ℕ → Bytes × Bytes → Bytes × Bytes
onto c (s, rest) = (c ∷ s, rest)

-- The scan for the end of an argument, and what is left: outside of quotes it ends at a space, and a
-- quote that is closed later is scanned to where it is closed.
unfoldable pub scan : Option ℕ → Bytes → Bytes × Bytes
scan quote [] = ([], [])
scan none (c ∷ s) =
    let next = scan (if is_quote c && has c s then some c else none) s in
    if is_space c then ([], c ∷ s) else onto c next
scan (some quote) (c ∷ s) = onto c (scan (if c == quote then none else some quote) s)

abbrev pub last_is : ℕ → Bytes → Bool
last_is q [] = false
last_is q (c ∷ []) = c == q
last_is q (c ∷ d ∷ s) = last_is q (d ∷ s)

abbrev pub first_is : ℕ → Bytes → Bool
first_is q [] = false
first_is q (c ∷ s) = c == q

-- `substr(1, size - 2)`; for a single quote the size wraps round, and nothing is left either.
abbrev pub inner : Bytes → Bytes
inner [] = []
inner (c ∷ s) = take (length s - 1) s

abbrev pub is_enclosed : ℕ → Bytes → Bool
is_enclosed q arg = first_is q arg && last_is q arg

unfoldable pub strip_quotes : Bytes → Bytes
strip_quotes arg =
    if is_enclosed 34 arg || is_enclosed 39 arg || is_enclosed 96 arg then inner arg else arg

-- The loop on fuel: an argument that is empty is left out.
unfoldable pub split_args : ℕ → Bytes → List Bytes
split_args zero s = []
split_args (suc fuel) s =
    let scanned = scan none (skip_spaces s) in
    let rest = split_args fuel scanned.1 in
    if is_empty s
    then []
    else if is_empty (strip_quotes scanned.0)
    then rest
    else strip_quotes scanned.0 ∷ rest

-- The command, and its arguments; each round but the last takes something off the text.
unfoldable pub parse_command : Bytes → Bytes × List Bytes
parse_command s = elim (find b' ' s) [
  | none ↦ (s, [])
  | some i ↦ (up_to (some i) s, split_args (suc (length (drop i s))) (drop i s))
]

abbrev pub to_lower : ℕ → ℕ
to_lower c = if leb 65 c && leb c 90 then c + 32 else c

abbrev pub lower : Bytes → Bytes
lower [] = []
lower (c ∷ s) = to_lower c ∷ lower s

-- `NameCompare`: one name begins with the other.
unfoldable pub name_compare : Bytes → Bytes → Bool
name_compare a b = string_starts_with (lower a) (lower b) || string_starts_with (lower b) (lower a)

module _ {J : Type 0} (o : Outside J) where
  unfoldable pub kick_named : Bytes → Bytes → ℕ → Option (Client J) → M J Bool
  kick_named name reason h none = return false
  kick_named name reason h (some c) =
      if name_compare c.name name then (do client_kick o h reason; return true) else return false

  -- Whether a player was kicked; the pass ends at the first.
  unfoldable pub kick_first : Bytes → Bytes → M J Bool
  kick_first name reason = do
    members ← ask (λ w. w.members)
    until members (λ h. do c ← lock h; kick_named name reason h c)

  unfoldable pub kick_args : List Bytes → M J Bool
  kick_args [] = return false
  kick_args (name ∷ []) = kick_first name (codes "Kicked by server console")
  kick_args (name ∷ more ∷ args) = kick_first name (concat_args (more ∷ args))

  -- At most `size_t(-1)` arguments.
  unfoldable pub command_kick : List Bytes → M J Bool
  command_kick args =
      if ensure_args_count args 1 18446744073709551615 then kick_args args else return false

  unfoldable pub command_say : Bytes → M J (Unit {0})
  command_say command =
      if ltb 3 (length command)
      then (do send_chat_message o (negsuc 0) (drop 4 command); done)
      else done
