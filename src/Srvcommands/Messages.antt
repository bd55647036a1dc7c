-- ===== src/Srvcommands/Messages.antt =====
-- `sm_privmsg` of src/srvcommands.c: what a message of a user makes the bot do. `none` is a read
-- through NULL or outside a text.
use acidblood.Common.{ℕ, Option, none, some, List, [], ◌∷◌, ◌==◌, if◌then◌else◌, ◌>>=◌, ℤ}
use acidblood.Text.{Text, strcaseeq}
use acidblood.Parser.{InputStruct}
use acidblood.Commands.{Command, Caller, Limits, Action, handle_command, handle_ctcp}
use acidblood.Tracking.{User, Server, Policy, access_in}
use acidblood.Tracking.Changes.{update_user, update_msg_time}
use acidblood.Srvcommands.{Told, told, client_of, strip_at, first_and_rest}

-- What the rest of the program gives: the tables, what the functions for CTCP return, the settings,
-- the times, and when a user last had a command or a CTCP message run.
pub record Setting : Type 0 where
  pub policy : Policy
  pub commands : List Command
  pub ctcplist : List Command
  pub result : Command → ℤ
  pub limits : Limits
  pub commandchar : ℕ
  pub currtime : ℕ
  pub now : ℕ
  pub last : ℕ → ℕ × ℕ

-- What `handle_command` or `handle_ctcp` leads to.
pub data Answer : Type 0 where
  silent : Answer
  acted : Caller → Action → Answer
  ctcp : Caller → ℤ → List Command → Option Text → Answer

-- The item of the user in the list of the server.
abbrev pub caller : Setting → Server → ℕ → User → Caller
caller g s u v = record {
  nick = v.nick;
  server_nick = s.nick;
  access = access_in u s.ulist;
  lastcmd = (g.last u).0;
  lastctcp = (g.last u).1;
}

abbrev pub run_at : Setting → Caller → Text → Text → Answer
run_at g user dest message =
    let (user', action) = handle_command g.commands g.limits g.currtime g.now user dest message in
    acted user' action

abbrev pub ctcp_at : Setting → Caller → Text → Option Answer
ctcp_at g user message =
    elim (handle_ctcp g.ctcplist g.result g.limits g.currtime g.now user message) [
      | none ↦ none
      | some (user', r, calls, rest) ↦ some (ctcp user' r calls rest)
    ]

-- The tests behind the triggers. The first byte of an empty message is its NUL.
unfoldable pub answer_message : Setting → Server → Caller → Text → Text → Option Answer
answer_message g s user dest [] =
    if g.commandchar == 0
    then none
    else some (if strcaseeq (some dest) (some s.nick) then run_at g user dest [] else silent)
answer_message g s user dest (c ∷ message) =
    if c == g.commandchar
    then some (run_at g user dest message)
    else if c == 1
    then ctcp_at g user (c ∷ message)
    else some
        (if strcaseeq (some dest) (some s.nick) then run_at g user dest (c ∷ message) else silent)

-- `x` is the address for a new user. The result is the server, what SetAccess sends, what the
-- triggers are told, the user's address, which is `none` for the bot itself, and the answer.
unfoldable pub sm_privmsg :
    Setting → ℕ → Server → InputStruct → Option (Server × List Text × List Told × Option ℕ × Answer)
unfolding answer_message
sm_privmsg g x s is = do
  client ← client_of s is
  let (first, rest) = first_and_rest is.params
  t ← strip_at b':' rest
  message ← strip_at b'\r' (some t)
  nick ← client.nick
  dest ← first
  (s1, out, user) ← update_user g.policy g.currtime x s nick client.ident client.address
  elim user [
    | none ↦ some (s1, out, [], none, silent)
    | some u ↦ (do
      s2 ← update_msg_time g.now s1 u
      v ← s2.user_at u
      answer ← answer_message g s2 (caller g s2 u v) dest message
      some (s2, out, told 5 (some nick) (some dest) (some message) ∷ [], some u, answer))
  ]
