-- ===== src/Chanop/Channel.antt =====
-- The commands of dmodules/chanop/chanop.c for a channel: `msg_topic`, `msg_mode`, `msg_autoop` and
-- `msg_kick`.
use acidblood.Common.{
  ℕ, true, false, ◌&&◌, Option, none, some, List, [], ◌∷◌, ◌++◌, ◌==◌, if◌then◌else◌, ◌>>=◌, codes,
  ℤ, pos, leb_ℤ, ltb_ℤ,
}
use acidblood.Text.{Text, strcaseeq, strtok, at_byte, at_end}
use acidblood.Sending.{irc_sprintf, send_private, msgreply}
use acidblood.Settings.{BotStruct}
use acidblood.Tracking.{Server, get_from_channel, get_channel_access}
use acidblood.Autojoin.{Channels, enter_channel, exit_channel}
use acidblood.Chanop.{words, too_low}

abbrev pub both : Option Text × Option Text → Option (Text × Text)
both (none, b) = none
both (some a, none) = none
both (some a, some b) = some (a, b)

-- The two commands that need a channel and a text, with the line that they send.
abbrev pub on_channel :
    Server → ℕ → Text → Option Text → Text → (Text → Text → List Text) → Option (List Text)
on_channel s u replyto text usage send = elim (both (words text)) [
  | some (channel, rest) ↦ (do
    access ← get_channel_access s u channel
    some (if ltb_ℤ access (pos 0) then too_low replyto else send channel rest))
  | none ↦ some (msgreply replyto usage)
]

unfoldable pub msg_topic : Server → ℕ → Text → Option Text → Option (List Text)
msg_topic s u replyto text =
    on_channel s u replyto text (codes "Syntax error: topic <channel> <text>") (λ channel topic.
      msgreply replyto (codes "Changing topic on " ++ channel)
      ++ irc_sprintf (codes "TOPIC " ++ channel ++ codes " :" ++ topic ++ codes "\n") ∷ [])

unfoldable pub msg_mode : Server → ℕ → Text → Option Text → Option (List Text)
msg_mode s u replyto text =
    on_channel s u replyto text (codes "Syntax error: mode <channel> <flags>") (λ channel modes.
      msgreply replyto (codes "Changing mode on " ++ channel ++ codes " to " ++ modes)
      ++ irc_sprintf (codes "MODE " ++ channel ++ codes " " ++ modes ++ codes "\n") ∷ [])

unfoldable pub msg_autoop : BotStruct → Text → Option Text → BotStruct × List Text
msg_autoop botinfo replyto none =
    (botinfo, msgreply replyto (if botinfo.autoop then codes "Autoop ON" else codes "Autoop OFF"))
msg_autoop botinfo replyto (some text) =
    if strcaseeq (some (codes "off")) (some text)
    then (record botinfo { autoop = false }, msgreply replyto (codes "Autoop OFF"))
    else if strcaseeq (some (codes "on")) (some text)
    then (record botinfo { autoop = true }, msgreply replyto (codes "Autoop ON"))
    else (botinfo, msgreply replyto (codes "Syntax error: Autoop <on/off>"))

abbrev pub kick_line : Text → Text → Option Text → Text
kick_line channel nick none =
    irc_sprintf (codes "KICK " ++ channel ++ codes " " ++ nick ++ codes "\n")
kick_line channel nick (some message) =
    irc_sprintf
      (codes "KICK " ++ channel ++ codes " " ++ nick ++ codes " :" ++ message ++ codes "\n")

-- The channel, the nick and the message.
abbrev pub kick_words : Option Text → Option Text × Option Text × Option Text
kick_words none = (none, none, none)
kick_words (some text) =
    let (channel, r) = strtok (at_byte b' ') text in
    let (nick, r') = strtok (at_byte b' ') r in
    let (message, _) = strtok at_end r' in (channel, nick, message)

-- The refusal, or the line, once the target is found. The first refusal goes to the target.
unfoldable pub kick_target : Text → Text → Text → Text → Text → Option Text → ℤ → ℤ → List Text
kick_target replyto channel nick snick tnick message access target_access =
    if leb_ℤ (pos 0) target_access && ltb_ℤ target_access access
    then send_private tnick (snick ++ codes " tried to kick you!")
      ++ send_private replyto (codes "attempt to kick user with higher access denied")
    else msgreply replyto (codes "Kicking " ++ nick ++ codes " on " ++ channel)
      ++ kick_line channel nick message ∷ []

-- Where the target is not found the command goes on, and reads through NULL.
unfoldable pub msg_kick : Server → ℕ → Text → Option Text → Option (List Text)
unfolding kick_target
msg_kick s u replyto text =
    let (first, second, message) = kick_words text in
    elim (both (first, second)) [
      | some (channel, nick) ↦ (do
        v ← s.user_at u
        if strcaseeq (some nick) (some s.nick)
            then some (
                irc_sprintf (
                  codes "KICK "
                  ++ channel
                  ++ codes " "
                  ++ v.nick
                  ++ codes " :Try to make me kick myself eh?\n")
                ∷ [])
            else (do
              access ← get_channel_access s u channel
              if ltb_ℤ access (pos 0) then some (too_low replyto) else (do
                member ← get_from_channel s nick channel
                elim member [
                  | none ↦ none
                  | some e ↦ (do
                    t ← s.user_at e.userinfo
                    some (kick_target replyto channel nick v.nick t.nick message access e.access))
                ])))
      | none ↦ some (msgreply replyto (codes "Syntax error: kick <channel> <nickname>"))
    ]

-- The data up to the end of the first token, where `strtok` has put a NUL.
abbrev pub up_to : Text → Text → Text
up_to [] token = token
up_to (c ∷ s) token = if c == b' ' then c ∷ up_to s token else token

-- The reply goes out behind the line that `EnterChannel` sends.
unfoldable pub msg_join :
    List Channels → Server → Text → Option Text → Option (List Channels × List Text)
msg_join conf_channels s replyto none =
    some (conf_channels, msgreply replyto (codes "Syntax error: join <channel> <key>"))
msg_join conf_channels s replyto (some text) =
    let (first, key) = words (some text) in
    elim first [
      | none ↦ some (conf_channels, msgreply replyto (codes "Syntax error: join <channel> <key>"))
      | some channel ↦ (do
        (r, conf, out) ← enter_channel conf_channels s (up_to text channel) key
        some (
          conf,
          out
              ++ (if ltb_ℤ r (pos 0)
                  then msgreply replyto (codes "I'm in that channel already")
                  else msgreply replyto (codes "Joining " ++ channel)),
        ))
    ]

-- `fuel` is for the loop of `DelChannel`.
unfoldable pub msg_part :
    ℕ → List Channels → Server → Text → Option Text → Option (List Channels × Server × List Text)
msg_part fuel conf_channels s replyto none =
    some (conf_channels, s, msgreply replyto (codes "Syntax error: part <channel>"))
msg_part fuel conf_channels s replyto (some text) = do
  (r, conf, out, s') ← exit_channel fuel conf_channels s text
  some (
    conf,
    s',
    out
        ++ (if ltb_ℤ r (pos 0)
            then msgreply replyto (codes "I'm not in channel " ++ text)
            else msgreply replyto (codes "Parting " ++ text)),
  )
