-- ===== src/Servers/Action.antt =====
-- `server_action`, `register_to_server`, `complete_connect` and `parse_server` of src/server.c.
-- `none` is a read through NULL or outside a text.
use acidblood.Common.{
  ℕ, Bool, true, false, ◌&&◌, ◌||◌, Option, none, some, List, [], ◌∷◌, ◌++◌, leb, ◌==◌,
  if◌then◌else◌, ◌>>=◌, codes, pos_part,
}
use acidblood.Text.{Text}
use acidblood.Parser.{InputStruct, split_input}
use acidblood.Sending.{irc_sprintf}
use acidblood.Settings.{BotStruct}
use acidblood.Autojoin.{Channels, join_channels}
use acidblood.Network.{Event, net_read, net_write, net_error, SocketInfo, Outside, send_packet}
use acidblood.Network.Buffer.{Received, getline_server}
use acidblood.Tracking.Servers.{ServerItem, get_server_by_socket}

-- `%s` of a pointer: `printf` writes (null) for NULL.
abbrev pub shown : Option Text → Text
shown none = codes "(null)"
shown (some t) = t

unfoldable pub send_lines : Outside → ℕ → List Text → SocketInfo → Option SocketInfo
send_lines o currtime [] s = some s
send_lines o currtime (line ∷ lines) s = do
  s' ← send_packet o currtime s line
  send_lines o currtime lines s'

-- The nick of the server that the socket finds.
abbrev pub nick_by_socket : List ServerItem → ℕ → Option Text
nick_by_socket servers n = elim (get_server_by_socket servers n) [
  | none ↦ none
  | some (s, _) ↦ some s.tracked.nick
]

abbrev pub password_line : Option Text → List Text
password_line none = []
password_line (some p) = irc_sprintf (codes "PASS " ++ p ++ codes " \n") ∷ []

unfoldable pub register_to_server :
    Outside → ℕ → BotStruct → List ServerItem → ℕ → SocketInfo → Option SocketInfo
unfolding send_lines
register_to_server o currtime botinfo servers n s = do
  nick ← nick_by_socket servers n
  send_lines o currtime
      (password_line botinfo.srvpass
        ++ irc_sprintf (
            codes "USER "
            ++ shown botinfo.user
            ++ codes " "
            ++ shown botinfo.server
            ++ codes " "
            ++ shown botinfo.mode
            ++ codes " :"
            ++ shown botinfo.fname
            ++ codes " \n")
          ∷ irc_sprintf (codes "NICK " ++ nick ++ codes " \n")
          ∷ [])
      s

abbrev pub away_line : Option Text → List Text
away_line none = []
away_line (some message) = irc_sprintf (codes "AWAY:" ++ message ++ codes " \n") ∷ []

-- `pinger` is the address of `pingonidle`. A setting of `keepalive` below 0 is none.
unfoldable pub complete_connect :
    Outside
    → ℕ
    → BotStruct
    → List Channels
    → ℕ
    → List ServerItem
    → ℕ
    → SocketInfo
    → Option SocketInfo
unfolding send_lines
complete_connect o currtime botinfo conf_channels pinger servers n s = do
  s1 ← send_lines o currtime (away_line botinfo.awaymsg) (record s { registered = true })
  nick ← nick_by_socket servers n
  send_lines o currtime
      (irc_sprintf (codes "MODE " ++ nick ++ codes " " ++ shown botinfo.mode ++ codes " \n")
        ∷ (if botinfo.ns then [] else join_channels conf_channels))
      (record s1 { keepalive = pos_part botinfo.keepalive; idle = pinger })

-- The line in the buffer, up to its NUL.
abbrev pub line_of : Text → Text
line_of [] = []
line_of (c ∷ s) = if c == 0 then [] else c ∷ line_of s

-- `is.command[1]`, which is the NUL of a command of one byte.
abbrev pub second_is_letter : Text → Bool
second_is_letter [] = false
second_is_letter (a ∷ []) = false
second_is_letter (a ∷ c ∷ s) = (leb b'A' c && leb c b'Z') || (leb b'a' c && leb c b'z')

-- Whether the line is for `handle_server_command`, and else for `handle_numeric`.
unfoldable pub parse_server : Text → Option (Bool × InputStruct)
parse_server buff =
    let is = split_input (line_of buff) in
    elim is.command [ none ↦ none | some command ↦ some (second_is_letter command, is) ]

-- `handle` is what the line does to the socket.
unfoldable pub server_action :
    Outside
    → ℕ
    → BotStruct
    → List ServerItem
    → ℕ
    → List Received
    → (Bool × InputStruct → SocketInfo → Option SocketInfo)
    → Event
    → SocketInfo
    → Option SocketInfo
unfolding getline_server parse_server register_to_server
server_action o currtime botinfo servers n received handle net_read s = do
  (r, s', _, _) ← getline_server o currtime s 0 received
  if r == 1 then (do line ← parse_server s'.buff; handle line s') else some s'
server_action o currtime botinfo servers n received handle net_write s =
    if s.connecting
    then register_to_server o currtime botinfo servers n
        (record s { connecting = false; connected = true; writeable = false })
    else some s
server_action o currtime botinfo servers n received handle net_error s = some s
