-- ===== src/Srvcommands.antt =====
-- What the lines of the server do, in src/srvcommands.c, apart from NOTICE: to the users
-- and channels of its `struct server_list`, to the triggers, and to the socket. `none` as a result
-- is a read through NULL or outside a text, or a loop that has used up its fuel.
pub mod Messages
pub mod Effects
pub mod Allowed
use acidblood.Common.{
  ℕ, zero, suc, ◌+◌, ◌-◌, ◌*◌, ◌/◌, ◌%◌, ◌≤◌, ◌<◌, ◌≡◌, refl, sym, ap, ◌∙◌, subst, ◌≢◌, ◌↔◌, ◌⊎◌,
  inl, inr, Bool, true, false, not, ◌&&◌, ◌||◌, Option, none, some, List, [], ◌∷◌, ◌++◌, map, arith,
  ltb, leb, ◌==◌, if◌then◌else◌, ltb→lt, lt→ltb, leb→le, ==_iff, ==_refl, ◌>>=◌, Bool-cases,
  Option-cases, codes, length, take, drop, length-append, take-append-drop, length-take,
  length-drop, keep, All, All-append, All-parts, length-map, After, After-bind, After-map,
  After-then, After-search, After-elim, After-if, After-some, ℤ, pos, negsuc, pos_part, neg_part,
  leb_ℤ, ltb_ℤ,
}
use acidblood.Text.{Text, strcaseeq, strtok, at_byte, at_end, strip_char_from_end}
use acidblood.Parser.{InputStruct, ClientInfo, convert_clientinfo, build_clientinfo}
use acidblood.Sending.{irc_sprintf}
use acidblood.Network.{SocketInfo, Outside, disconnected}
use acidblood.Tracking.{Server, Policy}
use acidblood.Tracking.Changes.{add_user_to_channel, rename_user}
use acidblood.Tracking.Removal.{del_user_from_channel, quit_user}

-- What `botevent` is told; the events have the numbers of include/events.h.
pub record Told : Type 0 where
  pub event : ℕ
  pub nick : Option Text
  pub dest : Option Text
  pub info : Option Text

abbrev pub told : ℕ → Option Text → Option Text → Option Text → Told
told event nick dest info = record { event = event; nick = nick; dest = dest; info = info }

-- `convert_clientinfo` of the prefix, which is read also where it is NULL.
abbrev pub client_of : Server → InputStruct → Option (ClientInfo Server)
client_of s is = elim is.prefix [ none ↦ none | some prefix ↦ convert_clientinfo (some s) prefix ]

-- `strip_char_from_end` of a pointer, which is read also where it is NULL.
abbrev pub strip_at : ℕ → Option Text → Option Text
strip_at c none = none
strip_at c (some text) = strip_char_from_end c text

-- The first word and the rest.
abbrev pub first_and_rest : Option Text → Option Text × Option Text
first_and_rest none = (none, none)
first_and_rest (some params) =
    let (first, r) = strtok (at_byte b' ') params in
    let (rest, _) = strtok at_end r in (first, rest)

unfoldable pub sm_topic : Server → InputStruct → Option (List Told)
sm_topic s is = do
  client ← client_of s is
  let (channel, rest) = first_and_rest is.params
  topic ← rest
  if leb (length topic) 2 then some [] else (do
    t ← strip_at b':' (some topic)
    t' ← strip_at b'\r' (some t)
    some (told 6 client.nick channel (some t') ∷ []))

-- `%s` of a pointer: `printf` writes (null) for NULL.
abbrev pub shown : Option Text → Text
shown none = codes "(null)"
shown (some t) = t

unfoldable pub sm_ping : InputStruct → List Text
sm_ping is = irc_sprintf (codes "PONG " ++ shown is.params ++ codes "\n") ∷ []

unfoldable pub sm_pong : SocketInfo → SocketInfo
sm_pong sinfo = record sinfo { pingtimeout = 0 }

unfoldable pub sm_error : Outside → SocketInfo → Option SocketInfo
sm_error o sinfo = disconnected o sinfo

unfoldable pub sm_kill : Outside → SocketInfo → Option SocketInfo
sm_kill o sinfo = disconnected o sinfo

-- `x` and `y` are the addresses for a new user and a new channel, and `junk` what `malloc` leaves.
-- A user without a nick is copied by `strdup`.
unfoldable pub sm_join :
    Policy → ℕ → ℤ → ℕ → ℕ → Server → InputStruct → Option (Server × List Told × List Text)
sm_join p now junk x y s is = do
  client ← client_of s is
  t ← strip_at b':' (first_and_rest is.params).0
  channel ← strip_at b'\r' (some t)
  nick ← client.nick
  if strcaseeq (some nick) (some s.nick) then some (s, [], []) else (do
    (s', out) ← add_user_to_channel p now junk x y s nick client.ident client.address (some channel)
    some (s', told 2 (some nick) (some channel) none ∷ [], out))

-- A nick that is NULL is no user's.
abbrev pub part_by : Server → Option Text → Text → Option Server
part_by s none channel = some s
part_by s (some nick) channel = del_user_from_channel s nick channel

-- The triggers are called before the user goes.
unfoldable pub sm_part : Server → InputStruct → Option (Server × List Told)
sm_part s is = do
  client ← client_of s is
  let (first, reason) = first_and_rest is.params
  t ← strip_at b':' first
  channel ← strip_at b'\r' (some t)
  if strcaseeq client.nick (some s.nick)
      then some (s, told 3 client.nick (some channel) reason ∷ [])
      else (do
        s' ← part_by s client.nick channel
        some (s', told 3 client.nick (some channel) reason ∷ []))

abbrev pub quit_by : ℕ → Server → Option Text → Option Server
quit_by fuel s none = some s
quit_by fuel s (some nick) = quit_user fuel s nick

unfoldable pub sm_quit : ℕ → Server → InputStruct → Option (Server × List Told)
sm_quit fuel s is = do
  client ← client_of s is
  s' ← quit_by fuel s client.nick
  some (s', told 4 client.nick none is.params ∷ [])

unfoldable pub sm_mode : Server → InputStruct → Option (List Told)
sm_mode s is = do
  client ← client_of s is
  let (channel, rest) = first_and_rest is.params
  modes ← strip_at b'\r' rest
  some (told 7 client.nick channel (some modes) ∷ [])

abbrev pub rename_by : Server → Option Text → Text → Option Server
rename_by s none newnick = some s
rename_by s (some nick) newnick = rename_user s nick newnick

unfoldable pub sm_nick : Server → InputStruct → Option (Server × List Told)
sm_nick s is = do
  client ← client_of s is
  newnick ← strip_at b':' is.params
  s' ← rename_by s client.nick newnick
  some (s', told 8 client.nick none (some newnick) ∷ [])

-- The channel, the nick and the reason.
abbrev pub kick_words : Option Text → Option Text × Option Text × Option Text
kick_words none = (none, none, none)
kick_words (some params) =
    let (channel, r) = strtok (at_byte b' ') params in
    let (nick, r') = strtok (at_byte b':') r in
    let (reason, _) = strtok at_end r' in (channel, nick, reason)

-- No channel has the name NULL. Without a reason `strlen` reads through NULL, once the user is gone.
unfoldable pub sm_kick : Server → InputStruct → Option (Server × List Told × List Text)
sm_kick s is = do
  client ← client_of s is
  let (channel, second, reason) = kick_words is.params
  nick ← strip_at b' ' second
  s' ← elim channel [ none ↦ some s | some c ↦ del_user_from_channel s nick c ]
  why ← reason
  some (
    s',
    told 9 client.nick channel (some why) ∷ [],
    if strcaseeq (some nick) (some s.nick)
        then irc_sprintf (codes "JOIN " ++ shown channel ++ codes "\n") ∷ []
        else [],
  )
