-- ===== src/Examples/Chat.antt =====
-- The theorems on what users ask of the bot and what servers tell it, at small cases.
use acidblood.Common.{
  ℕ, ◌*◌, ◌≤◌, ◌≡◌, refl, true, false, Option, none, some, List, [], ◌∷◌, ◌++◌, arith, codes,
  length, All, After, ℤ, pos, negsuc,
}
use acidblood.Text.{Text, strcaseeq, same_bytes_nocase, lowerstring, strtok, strip_char_from_end}
use acidblood.Sending.{msgreply}
use acidblood.Commands.{Command, call, handle_command, run_command}
use acidblood.Parser.{InputStruct, ClientInfo, convert_clientinfo}
use acidblood.Tracking.Changes.{update_user, update_msg_time}
use acidblood.Tracking.{
  User, Server, get_user, put, look, name_of, nick_of, get_channel, get_channel_access,
  get_from_channel,
}
use acidblood.Tracking.Sound.{nick_at, joins, IsSound}
use acidblood.Chanop.{mode_line, user_join, msg_op, msg_opuser, msg_deop}
use acidblood.Chanop.Channel.{msg_topic, msg_mode, msg_kick}
use acidblood.Chanop.Joining.{user_join-negative}
use acidblood.Chanop.Safety.{OnlySays, OnlySaysOn, chanop-private, chanop-protects}
use acidblood.Seen.{ChUsers, Files, badnickstart, seen_is_inchannel, logseen, seen_cmd}
use acidblood.Seen.Answers.{seen_line, seen_cmd-left}
use acidblood.Dicemod.{DieReturn, dicemod_attack}
use acidblood.Dicemod.Rolls.{IsRoll, dicemod_attack-bounds}
use acidblood.Srvcommands.{Told, told, sm_quit}
use acidblood.Srvcommands.Messages.{Setting, Answer, silent, acted, sm_privmsg}
use acidblood.Srvcommands.Allowed.{IsLawful, sm_privmsg-IsLawful}
use acidblood.Srvcommands.Effects.{prefix_of, sm_quit-gone}
use acidblood.Examples.Sockets.{bot}
use acidblood.Examples.Tracks.{open_policy, one_user, ann_joined, ann_joined-IsSound, few_channels}

chanop-private_example :
    OnlySays (msg_opuser one_user 7 (codes "#c") (some (codes "#c ann")))
    × OnlySays (msg_deop one_user 7 (codes "#c") (some (codes "#c ann")))
    × OnlySays (msg_topic one_user 7 (codes "#c") (some (codes "#c ann")))
    × OnlySays (msg_mode one_user 7 (codes "#c") (some (codes "#c ann")))
    × OnlySays (msg_kick one_user 7 (codes "#c") none)
    × OnlySaysOn one_user (msg_op bot open_policy one_user 7 (codes "#c") (some (codes "#c")))
unfolding get_channel_access put strtok
chanop-private_example =
    chanop-private bot open_policy one_user 7 (codes "#c") (some (codes "#c ann")) none
      (some (codes "#c")) (λ channel. (0, refl)) (λ channel nick e. absurd (cc)) refl

abbrev person : Text → User
person nick = record { nick = nick; ident = none; address = none; lastmsg = 50; channels = 9 ∷ [] }

-- `#c`, where `ann` has 3 or what is given, and `bob` has 50.
abbrev members : ℤ → Server
members access = record {
  nick = codes "bot";
  ulist =
      (record { userinfo = 7; access = negsuc 0 })
      ∷ (record { userinfo = 8; access = negsuc 0 })
      ∷ [];
  clist = 9 ∷ [];
  user_at = put (put (λ u. none) 7 (some (person (codes "ann")))) 8 (some (person (codes "bob")));
  channel_at =
      put (λ c. none) 9
        (some (record {
          name = codes "#c";
          users =
              (record { userinfo = 7; access = access })
              ∷ (record { userinfo = 8; access = pos 50 })
              ∷ [];
        }));
}

chanop-protects_example :
    OnlySays (msg_deop (members (pos 3)) 8 (codes "bob") (some (codes "#c ann")))
    × OnlySays (msg_kick (members (pos 3)) 8 (codes "bob") (some (codes "#c ann out")))
unfolding get_channel_access get_from_channel get_channel look name_of nick_of put strtok strcaseeq
    same_bytes_nocase
chanop-protects_example =
    chanop-protects (members (pos 3)) 8 (codes "bob") (some (codes "#c ann"))
      (some (codes "#c ann out")) (codes "#c") (codes "ann")
      (record { userinfo = 7; access = pos 3 }) (some (codes "out")) (pos 50) refl refl refl refl
      refl refl

user_join-negative_example :
    (user_join bot (members (negsuc 4)) (codes "ann") (codes "#c")
      ≡ some (mode_line (codes "#c") (codes "+o") (codes "ann") ∷ []))
    × (msg_op bot open_policy (members (negsuc 4)) 7 (codes "ann") (some (codes "#c"))
        ≡ some (members (negsuc 4), msgreply (codes "ann") (codes "Authorization failed!")))
unfolding get_channel_access get_from_channel get_channel look name_of nick_of put strtok strcaseeq
    same_bytes_nocase
user_join-negative_example =
    user_join-negative bot open_policy (members (negsuc 4)) (codes "ann") (codes "#c")
      (record { userinfo = 7; access = negsuc 4 }) (person (codes "ann")) 4 (codes "ann")
      (some (codes "#c")) refl refl refl refl refl refl

abbrev log : Files
log = record { file = λ n. none; chdir = true; makes = λ n. true; timestr = codes "Monday" }

abbrev here : List ChUsers
here = (record { nick = codes "ann"; channel = codes "#c" }) ∷ []

seen_cmd-left_example :
    seen_cmd (logseen (codes "ann") (codes "#c") log) [] (codes "#d") (some (codes "ann"))
    ≡ some (msgreply (codes "#d") (seen_line log (codes "ann") (codes "#c") ++ codes "\n"))
unfolding badnickstart lowerstring seen_is_inchannel
seen_cmd-left_example =
    seen_cmd-left log [] b'a' (codes "nn") (codes "#c") (codes "#d")
      ((refl, (refl, (refl, tt))), refl, refl, refl, refl) refl refl (omega arith) (omega arith)

dicemod_attack-bounds_example :
    (dice : List DieReturn) × (dicemod_attack (λ i. i * i) (some (codes "4")) ≡ some dice)
    × (length dice ≤ 10)
    × All IsRoll dice
unfolding strtok
dicemod_attack-bounds_example = dicemod_attack-bounds (λ i. i * i) (codes "4") (codes "4") refl

abbrev command : Text → ℤ → Command
command name access = record {
  cmd = name;
  function = 1;
  module_handle = 0;
  access = access;
  flags = 0;
}

abbrev listed : List Command
listed = command (codes "HELP") (pos 100) ∷ command (codes "RAW") (pos 0) ∷ []

sm_quit-gone_example :
    (s' : Server) × (sm_quit 2 ann_joined (record {
      prefix = some (prefix_of (codes "ann") (codes "a") (codes "host"));
      command = some (codes "QUIT");
      params = some (codes "bye");
    })
      ≡ some (s', told 4 (some (codes "ann")) none (some (codes "bye")) ∷ []))
    × IsSound s'
    × (get_user s' (codes "ann") ≡ some none)
    × ((t d : ℕ)
        → strcaseeq (nick_at ann_joined.user_at t) (some (codes "ann")) ≡ false
        → joins s'.user_at t d ≡ joins ann_joined.user_at t d)
unfolding strcaseeq same_bytes_nocase
sm_quit-gone_example =
    sm_quit-gone 2 ann_joined b'a' (codes "nn") b'a' [] (codes "hos") b't' (some (codes "QUIT"))
      (some (codes "bye")) ann_joined-IsSound (refl, (refl, (refl, tt))) (refl, tt)
      (λ e. omega (arith, e)) refl few_channels

abbrev setting : Setting
setting = record {
  policy = open_policy;
  commands = listed;
  ctcplist = [];
  result = λ c. pos 0;
  limits = record { ctcp = 1; floodexempt = pos 0; cmddelay = 2; ctcpdelay = 2 };
  commandchar = b'!';
  currtime = 200;
  now = 201;
  last = λ u. (0, 0);
}

abbrev asks : InputStruct
asks = record {
  prefix = some (prefix_of (codes "ann") (codes "a") (codes "host"));
  command = some (codes "PRIVMSG");
  params = some (codes "#c :!help me");
}

abbrev ann : ClientInfo Server
ann = record {
  nick = some (codes "ann");
  ident = some (codes "a");
  address = some (codes "host");
  server = some (members (pos 3));
}

sm_privmsg-IsLawful_example :
    After
      (IsLawful (strcaseeq (some (codes "ann")) (some (codes "bot"))) (members (pos 3)))
      (sm_privmsg setting 8 (members (pos 3)) asks)
unfolding convert_clientinfo strip_char_from_end strtok
sm_privmsg-IsLawful_example =
    sm_privmsg-IsLawful setting 8 (members (pos 3)) asks ann (codes "ann") refl refl

-- `ann` is looked up in the user table, and HELP is called.
abbrev answer_of : Option (Server × List Text × List Told × Option ℕ × Answer) → Answer
answer_of none = silent
answer_of (some r) = r.4

helped :
    answer_of (
      sm_privmsg setting 8 (members (pos 3)) (record {
        prefix = some (prefix_of (codes "ann") (codes "a") (codes "host"));
        command = some (codes "PRIVMSG");
        params = some (codes "#c :!help me");
      }))
    ≡ acted
        (record {
          nick = codes "ann";
          server_nick = codes "bot";
          access = pos 99;
          lastcmd = 201;
          lastctcp = 0;
        })
        (call (command (codes "HELP") (pos 100)) (codes "#c") (some (codes "me")) false)
unfolding sm_privmsg convert_clientinfo strip_char_from_end strtok update_user nick_of
    update_msg_time handle_command run_command
helped = refl
