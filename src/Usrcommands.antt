-- ===== src/Usrcommands.antt =====
-- The commands of src/usrcommands.c for users, apart from those on modules, the time and the version
-- and those that call on the process. A user is the address of a `struct auser` of the server. A
-- result is the lines that are sent, with what the command changes; `none` is a read through NULL.
pub mod Stats
pub mod Listing
use acidblood.Common.{
  ℕ, zero, suc, ◌+◌, ◌-◌, ◌*◌, ◌/◌, ◌%◌, ◌≤◌, ◌<◌, ◌≡◌, refl, sym, ap, ◌∙◌, subst, ◌≢◌, ◌↔◌, ◌⊎◌,
  inl, inr, Bool, true, false, not, ◌&&◌, ◌||◌, Option, none, some, List, [], ◌∷◌, ◌++◌, map, arith,
  ltb, leb, ◌==◌, if◌then◌else◌, ltb→lt, lt→ltb, leb→le, ==_iff, ==_refl, ◌>>=◌, Bool-cases,
  Option-cases, codes, length, take, drop, length-append, take-append-drop, length-take,
  length-drop, keep, All, All-append, All-parts, length-map, After, After-bind, After-map,
  After-then, After-search, After-elim, After-if, After-some, ℤ, pos, negsuc, pos_part, neg_part,
  leb_ℤ, ltb_ℤ,
}
use acidblood.Text.{Text, strcaseeq}
use acidblood.Sending.{irc_sprintf, send_private, msguser, msgreply}
use acidblood.Settings.{BotStruct}
use acidblood.Tracking.{Entry, User, Server, Policy, get_channel_access, update_access}
use acidblood.Chanop.{words, too_low}
use acidblood.Chanop.Channel.{both}
use acidblood.Commands.{Command}

-- The nick of the user, as `unick` reads it.
abbrev pub with_nick : {A : Type 0} → Server → ℕ → (Text → A) → Option A
with_nick s u f = elim (s.user_at u) [ none ↦ none | some v ↦ some (f v.nick) ]

unfoldable pub msg_identify : Policy → Server → ℕ → Text → Option Text → Option (Server × List Text)
msg_identify p s u replyto text =
    if strcaseeq text (some (codes "help"))
    then some (s, msgreply replyto (codes "Useage: identify <password>"))
    else (do
      (s', out) ← update_access p s u text
      done ← with_nick s' u (λ nick. msguser nick (codes "Identification complete"))
      some (s', out ++ done))

-- SAY and ACTION: the lines go to a channel on which the user is not banned.
abbrev pub to_channel :
    Server → ℕ → Text → Option Text → Text → (Text → Text → Text → List Text) → Option (List Text)
to_channel s u replyto text usage send = elim (both (words text)) [
  | none ↦ some (msgreply replyto usage)
  | some (channel, message) ↦ (do
    access ← get_channel_access s u channel
    if ltb_ℤ access (pos 0)
        then some (too_low replyto)
        else with_nick s u (λ nick. send nick channel message))
]

unfoldable pub msg_say : Server → ℕ → Text → Option Text → Option (List Text)
msg_say s u replyto text =
    to_channel s u replyto text (codes "Syntax error: say <channel> <text>")
      (λ nick channel message.
        msguser nick (codes "Saying message on " ++ channel) ++ send_private channel message)

unfoldable pub msg_action : Server → ℕ → Text → Option Text → Option (List Text)
msg_action s u replyto text =
    to_channel s u replyto text (codes "Syntax error: action <channel> <text>")
      (λ nick channel message.
        msguser nick (codes "Performing action on " ++ channel)
        ++ irc_sprintf (
            codes "PRIVMSG "
            ++ channel
            ++ codes " :"
            ++ (1 ∷ codes "ACTION " ++ message ++ 1 ∷ 10 ∷ []))
          ∷ [])

unfoldable pub msg_raw : Server → ℕ → Text → Option Text → Option (List Text)
msg_raw s u replyto none = some (msgreply replyto (codes "Syntax error: raw <command>"))
msg_raw s u replyto (some text) = with_nick s u (λ nick.
    msguser nick (codes "Sending raw message> " ++ text) ++ irc_sprintf (text ++ codes "\n") ∷ [])

unfoldable pub msg_ctcp : BotStruct → Text → Option Text → BotStruct × List Text
msg_ctcp botinfo replyto none =
    (botinfo, msgreply replyto (if botinfo.ctcp then codes "CTCP ON" else codes "CTCP OFF"))
msg_ctcp botinfo replyto (some text) =
    if strcaseeq (some (codes "off")) (some text)
    then (record botinfo { ctcp = false }, msgreply replyto (codes "CTCP OFF"))
    else if strcaseeq (some (codes "on")) (some text)
    then (record botinfo { ctcp = true }, msgreply replyto (codes "CTCP ON"))
    else (botinfo, msgreply replyto (codes "Syntax error: ctcp <on/off>"))

-- The bot's nick of the server changes at once, before the server has agreed.
unfoldable pub msg_nick : Server → Text → Option Text → Server × List Text
msg_nick s replyto none = (s, msgreply replyto (codes "Syntax error: nick <nickname>"))
msg_nick s replyto (some nick) = (
  record s { nick = nick },
  msgreply replyto (codes "Changing nick to " ++ nick)
      ++ irc_sprintf (codes "NICK " ++ nick ++ codes "\n") ∷ [],
)

pub record Uptime : Type 0 where
  pub day : ℕ
  pub hour : ℕ
  pub min : ℕ

-- The numbers that STATS shows, where the clock has not been set back.
unfoldable pub msg_stats : ℕ → ℕ → Uptime
msg_stats now starttime =
    let uptime = now - starttime in
    let day = uptime / 86400 in
    let uptime1 = if ltb 0 day then uptime - day * 86400 else uptime in
    let hour = uptime1 / 3600 in
    let uptime2 = if ltb 0 hour then uptime1 - hour * 3600 else uptime1 in
    record { day = day; hour = hour; min = uptime2 / 60 }

-- `disp` up to `i`, which is the length of `row`, and the rows that are shown. `disp` is cleared
-- when a row is shown, and at the end the last is shown, full or not.
unfoldable pub list_rows : ℤ → List Text → List Command → List (List Text)
list_rows access row [] = row ∷ []
list_rows access row (c ∷ list) =
    let next = if leb_ℤ access c.access then row ++ c.cmd ∷ [] else row in
    elim (length next == 4) [
      | true ↦ next ∷ list_rows access [] list
      | false ↦ list_rows access next list
    ]

unfoldable pub msg_list : ℤ → List Command → List (List Text)
unfolding list_rows
msg_list access list = list_rows access [] list
