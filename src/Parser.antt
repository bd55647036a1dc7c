-- ===== src/Parser.antt =====
-- Lines from the server and the configured channel list: `SplitInput`, `build_clientinfo`,
-- `convert_clientinfo` and `parse_channels` of src/parser.c.
pub mod Input
pub mod Prefix
pub mod Channels
use acidblood.Common.{
  ℕ, ◌+◌, ◌==◌, Bool, true, false, List, [], ◌∷◌, ◌++◌, Option, none, some, if◌then◌else◌, ltb,
  length,
}
use acidblood.Text.{Text, strip_char_from_end, strtok, at_byte, at_end}

pub record InputStruct : Type 0 where
  pub prefix : Option Text
  pub command : Option Text
  pub params : Option Text

-- The byte behind a pointer, NUL at the end.
abbrev pub first_byte : Text → ℕ
first_byte [] = 0
first_byte (c ∷ s) = c

abbrev pub split_command : Option Text → Text → InputStruct
split_command prefix buf =
    let (command, rest) = strtok (at_byte b' ') buf in
    let (params, _) = strtok (at_byte 13) rest in
    record { prefix = prefix; command = command; params = params }

unfoldable pub split_input : Text → InputStruct
split_input buf =
    if first_byte buf == b':'
    then (let (prefix, rest) = strtok (at_byte b' ') buf in split_command prefix rest)
    else split_command none buf

-- `server` is the entry that `GetServerBySocket` finds.
pub record ClientInfo {ℓ} (S : Type ℓ) : Type ℓ where
  pub nick : Option Text
  pub ident : Option Text
  pub address : Option Text
  pub server : Option S

unfoldable pub build_clientinfo {ℓ} : {S : Type ℓ} → Option S → Option Text → ClientInfo S
build_clientinfo server nick = record { nick = nick; ident = none; address = none; server = server }

-- `strchr(input, c) != NULL`
unfoldable pub has_byte : ℕ → Text → Bool
has_byte b [] = false
has_byte b (c ∷ s) = if c == b then true else has_byte b s

abbrev pub split_client {ℓ} : {S : Type ℓ} → Option S → Text → ClientInfo S
split_client server input =
    let (nick, r) = strtok (at_byte b'!') input in
    let (ident, r') = strtok (at_byte b'@') r in
    let (address, _) = strtok at_end r' in
    record { nick = nick; ident = ident; address = address; server = server }

-- `none` where `strip_char_from_end` reads in front of the prefix.
unfoldable pub convert_clientinfo {ℓ} : {S : Type ℓ} → Option S → Text → Option (ClientInfo S)
unfolding has_byte
convert_clientinfo server prefix = elim (strip_char_from_end b':' prefix) [
  | none ↦ none
  | some input ↦ some (
      if has_byte b'!' input
      then split_client server input
      else record { nick = some input; ident = none; address = none; server = server })
]

-- The variables of `parse_channels`: `temp` and `key` up to `x` and `y`.
pub record Scan : Type 0 where
  pub temp : Text
  pub key : Text
  pub keyflag : Bool
  pub haskey : Bool

abbrev pub start : Scan
start = record { temp = []; key = []; keyflag = false; haskey = false }

abbrev pub buffer_size : ℕ
buffer_size = 100

-- `insert_channels(temp, key)` or `insert_channels(temp, NULL)`, once `temp[x] = '\0'` is written.
abbrev pub scanned : Scan → Text × Option Text
scanned s = (s.temp, if s.haskey then some s.key else none)

-- A round of the loop: the next state, and the channel that is inserted, if any. `none` is a write
-- behind the end of `temp` or `key`.
unfoldable pub scan_byte : ℕ → Scan → Option (Scan × List (Text × Option Text))
scan_byte c s =
    if c == b'('
    then some (record s { keyflag = true; haskey = true }, [])
    else if c == b')'
    then (if ltb (length s.key) buffer_size then some (record s { keyflag = false }, []) else none)
    else if s.keyflag
    then (if ltb (length s.key) buffer_size
        then some (record s { key = s.key ++ c ∷ [] }, [])
        else none)
    else if c == b','
    then (if ltb (length s.temp) buffer_size then some (start, scanned s ∷ []) else none)
    else if ltb (length s.temp) buffer_size
    then some (record s { temp = s.temp ++ c ∷ [] }, [])
    else none

-- The end of the line. A key with no `)` has no NUL: `none`.
unfoldable pub scan_end : Scan → Option (List (Text × Option Text))
scan_end s =
    if s.keyflag
    then none
    else if ltb (length s.temp) buffer_size
    then some (scanned s ∷ [])
    else none

unfoldable pub scan : Text → Scan → Option (List (Text × Option Text))
unfolding scan_byte scan_end
scan [] s = scan_end s
scan (c ∷ line) s = elim (scan_byte c s) [
  | none ↦ none
  | some (s', out) ↦ elim (scan line s') [ none ↦ none | some rest ↦ some (out ++ rest) ]
]

-- The arguments of the calls of `insert_channels`, in order.
unfoldable pub parse_channels : Text → Option (List (Text × Option Text))
unfolding scan
parse_channels line = scan line start
