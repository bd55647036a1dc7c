-- ===== src/Numeric.antt =====
-- What the numerics 302, 366 and 433 of a server do, in src/numeric.c. `none` is a read through
-- NULL or outside a text.
pub mod Twice
use acidblood.Common.{
  ℕ, zero, suc, ◌+◌, ◌-◌, ◌*◌, ◌/◌, ◌%◌, ◌≤◌, ◌<◌, ◌≡◌, refl, sym, ap, ◌∙◌, subst, ◌≢◌, ◌↔◌, ◌⊎◌,
  inl, inr, Bool, true, false, not, ◌&&◌, ◌||◌, Option, none, some, List, [], ◌∷◌, ◌++◌, map, arith,
  ltb, leb, ◌==◌, if◌then◌else◌, ltb→lt, lt→ltb, leb→le, ==_iff, ==_refl, ◌>>=◌, Bool-cases,
  Option-cases, codes, length, take, drop, length-append, take-append-drop, length-take,
  length-drop, keep, All, All-append, All-parts, length-map, After, After-bind, After-map,
  After-then, After-search, After-elim, After-if, After-some, ℤ, pos, negsuc, pos_part, neg_part,
  leb_ℤ, ltb_ℤ,
}
use acidblood.Text.{Text, strcaseeq, strtok, at_byte, at_end, strip_char_from_end}
use acidblood.Sending.{irc_sprintf}
use acidblood.Settings.{BotStruct}
use acidblood.Network.{SocketInfo, Outside, disconnected, send_packet}
use acidblood.Tracking.{Server, Policy, update_access}
use acidblood.Tracking.Changes.{update_user}
use acidblood.Srvcommands.{Told, told, strip_at}

-- `s` is the server of the socket, and `none` is NULL. `NotConnectable` clears the flag, and
-- `disconnected` leaves the server as it is.
unfoldable pub numeric_nickinuse :
    Outside → ℕ → BotStruct → Server → SocketInfo → Option (Server × SocketInfo)
numeric_nickinuse o currtime botinfo s sinfo =
    if strcaseeq (some s.nick) botinfo.altnick
    then (do sinfo' ← disconnected o (record sinfo { unconnectable = false }); some (s, sinfo'))
    else (do
      nick ← botinfo.altnick
      sinfo' ← send_packet o currtime sinfo (irc_sprintf (codes "NICK " ++ nick ++ codes "\n"))
      some (record s { nick = nick }, sinfo'))

-- The nick, the ident and the address of a reply; the first word is dropped.
unfoldable pub userhost_parts : Text → Option (Text × Text × Option Text)
userhost_parts text = do
  line ← strip_char_from_end b'\r' text
  let (_, r) = strtok (at_byte b' ') line
  let (nick, r1) = strtok (at_byte b'=') r
  n ← strip_at b':' nick
  n' ← strip_char_from_end b'*' n
  let (ident, r2) = strtok (at_byte b'@') r1
  i ← strip_at b'+' ident
  some (n', i, (strtok (at_byte b' ') r2).0)

-- `UpdateAccess` reads through NULL for the bot itself.
unfoldable pub numeric_userhost : Policy → ℕ → ℕ → Server → Text → Option (Server × List Text)
unfolding userhost_parts
numeric_userhost p currtime x s text = do
  (nick, ident, address) ← userhost_parts text
  (s1, out, user) ← update_user p currtime x s nick (some ident) address
  u ← user
  (s2, more) ← update_access p s1 u none
  some (s2, out ++ more)

unfoldable pub numeric_ready : Text → Option (List Told)
numeric_ready params =
    let (_, r) = strtok (at_byte b' ') params in
    let (channel, r1) = strtok (at_byte b' ') r in
    (do
      t ← strip_at b':' (strtok at_end r1).0
      info ← strip_at b'\r' (some t)
      some (told 11 none channel (some info) ∷ []))
