-- ===== src/Examples/Users.antt =====
-- Runs of the user table and of the dispatch of commands, and their theorems at concrete users.
use acidblood.Common.{◌≡◌, refl, true, ◌||◌, none, some, [], ◌∷◌, arith, codes, All, pos, leb_ℤ}
use acidblood.Text.{strcaseeq, strtok, at_byte, at_end}
use acidblood.Match.{match}
use acidblood.Access.{UserData, Person, check_chan, set_access, set_chan_access, grant}
use acidblood.Access.Channel.{IsShort, any_eq, pieces, check_chan-any}
use acidblood.Access.Grant.{Somewhere, Grants, set_access-granted}
use acidblood.Commands.{Command, Caller, Limits, call, handle_command, run_command}
use acidblood.Commands.Dispatch.{IsFirst, handle_command-call}

abbrev master : UserData
master = record {
  usernick = codes "gm*";
  userip = codes "*.net";
  userstatus = pos 0;
  userchan = codes "all";
  userpass = some (codes "pw");
}

abbrev helper : UserData
helper = record {
  usernick = codes "*";
  userip = codes "*";
  userstatus = pos 20;
  userchan = codes "#a,#b";
  userpass = none;
}

abbrev gmack : Person
gmack = record { nick = codes "gmack"; address = some (codes "x.net") }

access_run : set_access (master ∷ helper ∷ []) true gmack (some (codes "pw")) ≡ some (pos 0, [])
unfolding set_access match grant
access_run = refl

chan_access_run : set_chan_access (helper ∷ []) true gmack (codes "#b") none ≡ some (pos 20, [])
unfolding set_chan_access match check_chan grant strcaseeq
chan_access_run = refl

set_access-granted_example :
    Somewhere (Grants true gmack (some (codes "pw")) (pos 0)) (master ∷ helper ∷ [])
set_access-granted_example =
    set_access-granted (master ∷ helper ∷ []) true gmack (some (codes "pw")) (pos 0) [] access_run
      (λ e. cc)

check_chan-any_example :
    check_chan (codes "#a,#b") (codes "#B")
    ≡ some (
        strcaseeq (some (codes "#a,#b")) (some (codes "all"))
        || (strcaseeq (some (codes "#a,#b")) (some (codes "#B"))
            || any_eq (codes "#B") (pieces [] (codes "#a,#b"))))
unfolding pieces
check_chan-any_example = check_chan-any (codes "#a,#b") (codes "#B") short
  where
    short : All IsShort (pieces [] (codes "#a,#b"))
    short = omega arith

abbrev raw : Command
raw = record { cmd = codes "RAW"; function = 1; module_handle = 0; access = pos 0; flags = 0 }

abbrev say : Command
say = record { cmd = codes "SAY"; function = 2; module_handle = 0; access = pos 20; flags = 1 }

abbrev limits : Limits
limits = record { ctcp = 1; floodexempt = pos 5; cmddelay = 3; ctcpdelay = 0 }

abbrev caller : Caller
caller = record {
  nick = codes "gmack";
  server_nick = codes "bot";
  access = pos 10;
  lastcmd = 99;
  lastctcp = 0;
}

say_run :
    handle_command (raw ∷ say ∷ []) limits 100 100 caller (codes "bot") (codes "say #a hi")
    ≡ (record caller { lastcmd = 100 }, call say (codes "gmack") (some (codes "#a hi")) true)
unfolding handle_command run_command strcaseeq strtok
say_run = refl

handle_command-call_example :
    (leb_ℤ (pos 0) (pos 10) ≡ true)
    × (leb_ℤ (pos 10) (pos 20) ≡ true)
    × IsFirst (strtok (at_byte b' ') (codes "say #a hi")).0 say (raw ∷ say ∷ [])
    × (some (codes "#a hi") ≡ (strtok at_end (strtok (at_byte b' ') (codes "say #a hi")).1).0)
    × (record caller { lastcmd = 100 } ≡ record caller { lastcmd = 100 })
handle_command-call_example =
    handle_command-call (raw ∷ say ∷ []) limits 100 100 caller (record caller { lastcmd = 100 })
      (codes "bot") (codes "say #a hi") say (codes "gmack") (some (codes "#a hi")) true say_run
