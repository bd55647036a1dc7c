-- ===== src/Chanop.antt =====
-- The module dmodules/chanop/chanop.c: channel operators. A user is the address of a `struct auser`
-- of the server. A result is the lines that are sent, with the server where that changes; `none` is
-- a read through NULL.
pub mod Channel
pub mod Safety
pub mod Joining
use mathlib.Core.Option
use acidblood.Common.{
  ℕ, zero, suc, ◌+◌, ◌-◌, ◌*◌, ◌/◌, ◌%◌, ◌≤◌, ◌<◌, ◌≡◌, refl, sym, ap, ◌∙◌, subst, ◌≢◌, ◌↔◌, ◌⊎◌,
  inl, inr, Bool, true, false, not, ◌&&◌, ◌||◌, Option, none, some, List, [], ◌∷◌, ◌++◌, map, arith,
  ltb, leb, ◌==◌, if◌then◌else◌, ltb→lt, lt→ltb, leb→le, ==_iff, ==_refl, ◌>>=◌, Bool-cases,
  Option-cases, codes, length, take, drop, length-append, take-append-drop, length-take,
  length-drop, keep, All, length-map, After, After-bind, After-map, After-then, After-search,
  After-elim, After-if, After-some, ℤ, pos, negsuc, pos_part, neg_part, leb_ℤ, ltb_ℤ,
}
use acidblood.Text.{Text, strcaseeq, strtok, at_byte, at_end}
use acidblood.Sending.{irc_sprintf, send_private, msgreply}
use acidblood.Settings.{BotStruct}
use acidblood.Tracking.{
  Entry, User, Server, Policy, get_from_channel, get_channel_access, update_access,
}

-- The lines of a first line with a space between its words.
abbrev pub mode_line : Text → Text → Text → Text
mode_line channel mode nick =
    irc_sprintf (codes "MODE " ++ channel ++ codes " " ++ mode ++ codes " " ++ nick ++ codes "\n")

unfoldable pub user_join : BotStruct → Server → Text → Text → Option (List Text)
user_join botinfo s nick channel = if not botinfo.autoop then some [] else (do
  member ← get_from_channel s nick channel
  elim member [
    | none ↦ none
    | some e ↦ (do
      uaccess ← get_channel_access s e.userinfo channel
      some (
          if leb_ℤ uaccess botinfo.oplevel
          then mode_line channel (codes "+o") nick ∷ []
          else if leb_ℤ uaccess botinfo.hoplevel
          then mode_line channel (codes "+h") nick ∷ []
          else if leb_ℤ uaccess botinfo.voicelevel
          then mode_line channel (codes "+v") nick ∷ []
          else []))
  ])

-- The words of the data up to a space, and the rest. Without data `strtok` returns NULL.
abbrev pub words : Option Text → Option Text × Option Text
words none = (none, none)
words (some text) =
    let (first, r) = strtok (at_byte b' ') text in let (rest, _) = strtok at_end r in (first, rest)

abbrev pub is_channel : Text → Bool
is_channel [] = false
is_channel (c ∷ s) = c == b'#'

-- `channel`, and where it is NULL what the reply goes to, if that is a channel.
abbrev pub or_here : Option Text → Text → Option Text
or_here (some channel) replyto = some channel
or_here none replyto = if is_channel replyto then some replyto else none

unfoldable pub give_mode : BotStruct → Text → Text → Text → ℤ → List Text
give_mode botinfo replyto channel nick access =
    if leb_ℤ access botinfo.oplevel
    then msgreply replyto (codes "Opping " ++ nick ++ codes " on " ++ channel)
      ++ mode_line channel (codes "+o") nick ∷ []
    else if leb_ℤ access botinfo.hoplevel
    then msgreply replyto (codes "Half opping " ++ nick ++ codes " on " ++ channel)
      ++ mode_line channel (codes "+h") nick ∷ []
    else if leb_ℤ access botinfo.voicelevel
    then msgreply replyto (codes "Voiceing " ++ nick ++ codes " on " ++ channel)
      ++ mode_line channel (codes "+v") nick ∷ []
    else msgreply replyto (codes "Authorization failed!")

-- `UpdateAccess` where a password is given.
abbrev pub with_password : Policy → Server → ℕ → Option Text → Option (Server × List Text)
with_password p s u none = some (s, [])
with_password p s u (some password) = update_access p s u (some password)

unfoldable pub msg_op :
    BotStruct → Policy → Server → ℕ → Text → Option Text → Option (Server × List Text)
unfolding give_mode
msg_op botinfo p s u replyto text =
    let (first, password) = words text in
    elim (or_here first replyto) [
      | none ↦ some (s, msgreply replyto (codes "Syntax error: op <channel> <password>"))
      | some channel ↦ (do
        (s', out) ← with_password p s u password
        access ← get_channel_access s' u channel
        v ← s'.user_at u
        some (
          s',
          out
              ++ (if ltb_ℤ access (pos 0)
                  then msgreply replyto (codes "Authorization failed!")
                  else give_mode botinfo replyto channel v.nick access),
        ))
    ]

-- `%s` of a pointer: `printf` writes (null) for NULL.
abbrev pub shown : Option Text → Text
shown none = codes "(null)"
shown (some t) = t

-- No channel has the name NULL.
abbrev pub access_on : Server → ℕ → Option Text → Option ℤ
access_on s u none = some (negsuc 0)
access_on s u (some channel) = get_channel_access s u channel

abbrev pub too_low : Text → List Text
too_low replyto = msgreply replyto (codes "Your access is too low to use this command.")

unfoldable pub msg_opuser : Server → ℕ → Text → Option Text → Option (List Text)
msg_opuser s u replyto none =
    some (msgreply replyto (codes "Syntax error: opuser <channel> <user>"))
msg_opuser s u replyto (some text) =
    let (channel, usertoop) = words (some text) in
    (do
      access ← access_on s u channel
      some (
          if leb_ℤ (pos 0) access
          then msgreply replyto (codes "Opping " ++ shown usertoop ++ codes " on " ++ shown channel)
            ++ mode_line (shown channel) (codes "+o") (shown usertoop) ∷ []
          else msgreply replyto (codes "Authorization failed!")))

-- The refusal, or the line, once the target is found.
unfoldable pub deop_target : Text → Text → Text → Text → ℤ → ℤ → List Text
deop_target replyto channel snick tnick access target_access =
    if leb_ℤ (pos 0) target_access && ltb_ℤ target_access access
    then send_private tnick (snick ++ codes " tried to deop you!")
      ++ msgreply replyto (codes "attempt to deop user with higher access denied")
    else msgreply replyto (codes "Deopping " ++ tnick ++ codes " on " ++ channel)
      ++ mode_line channel (codes "-o") tnick ∷ []

-- `unick(target)` comes before the test of `target`.
unfoldable pub msg_deop : Server → ℕ → Text → Option Text → Option (List Text)
unfolding deop_target
msg_deop s u replyto text =
    let (first, nick) = words text in
    elim (or_here first replyto) [
      | none ↦ some (msgreply replyto (codes "Syntax error: deop <channel> <nick>"))
      | some channel ↦ (do
        access ← get_channel_access s u channel
        v ← s.user_at u
        if ltb_ℤ access (pos 0) then some (too_low replyto) else elim nick [
          | none ↦ some (mode_line channel (codes "-o") v.nick ∷ [])
          | some n ↦ (do
            member ← get_from_channel s n channel
            elim member [
              | none ↦ none
              | some e ↦ (do
                t ← s.user_at e.userinfo
                some (deop_target replyto channel v.nick t.nick access e.access))
            ])
        ])
    ]
