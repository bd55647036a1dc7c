-- ===== src/Commands/Dispatch.antt =====
-- Which functions `handle_command` of src/usrcommands.c calls, and for whom.
use acidblood.Common.{
  ℕ, ◌≡◌, ap, inl, inr, Bool, true, false, Option, some, List, [], ◌∷◌, ◌++◌, arith, if◌then◌else◌,
  Bool-cases, All, ℤ, pos, leb_ℤ,
}
use mathlib.Core.Option.{some-injective}
use acidblood.Text.{Text, strcaseeq, strtok, at_byte, at_end}
use acidblood.Commands.{
  Command, Caller, Limits, call, run_command, handle_command, handle_server_command,
}

-- The command stands in the list, its name is the word, and that of no command in front of it is.
abbrev pub IsFirst : Option Text → Command → List Command → Type 0
IsFirst command c list =
    (pre : List Command) × (post : List Command) × (list ≡ pre ++ c ∷ post)
    × (strcaseeq command (some c.cmd) ≡ true)
    × All (λ d. strcaseeq command (some d.cmd) ≡ false) pre

find-IsFirst :
    (list : List Command) (command : Option Text) (c : Command)
    → handle_server_command list command ≡ some c
    → IsFirst command c list
unfolding handle_server_command
find-IsFirst [] command c h = cc
find-IsFirst (x ∷ list) command c h = elim (Bool-cases (strcaseeq command (some x.cmd))) [
  | inl e ↦
      let h' : x ≡ c = some-injective x c (rw e at h) in
      ([], list, ap (λ y. y ∷ list) h', rw (← h') e, tt)
  | inr e ↦
      let (pre, post, split, same, others) = find-IsFirst list command c (rw e at h) in
      (x ∷ pre, post, ap (◌∷◌ x) split, same, (e, others))
]

run_command-call :
    (list : List Command) (access : ℤ) (replyto : Text) (command rest : Option Text) (c : Command)
    (r : Text) (d : Option Text) (own : Bool)
    → run_command list access replyto command rest ≡ call c r d own
    → (handle_server_command list command ≡ some c)
      × (leb_ℤ access c.access ≡ true)
      × (r ≡ replyto)
      × (d ≡ rest)
unfolding run_command handle_server_command
run_command-call [] access replyto command rest c r d own h = cc
run_command-call (x ∷ list) access replyto command rest c r d own h =
    ground (arith, run_command-call list access replyto command rest c r d own)

-- A function is called only for a user who is not banned, with an access as good as the command
-- asks for, and it is that of the first command of the table whose name is the first word of the
-- message, in either case of letters. Its data is all that stands behind that word's space.
pub handle_command-call :
    (list : List Command) (limits : Limits) (currtime now : ℕ) (user user' : Caller)
    (dest message : Text) (c : Command) (r : Text) (d : Option Text) (own : Bool)
    → handle_command list limits currtime now user dest message ≡ (user', call c r d own)
    → (leb_ℤ (pos 0) user.access ≡ true)
      × (leb_ℤ user.access c.access ≡ true)
      × IsFirst (strtok (at_byte b' ') message).0 c list
      × (d ≡ (strtok at_end (strtok (at_byte b' ') message).1).0)
      × (user' ≡ record user { lastcmd = now })
unfolding handle_command
handle_command-call list limits currtime now user user' dest message c r d own h =
    let facts = called list limits currtime now user user' dest message c r d own h in
    (facts.0, facts.1, find-IsFirst list _ c facts.2, facts.3, facts.4)
  where
    called :
        (list : List Command) (limits : Limits) (currtime now : ℕ) (user user' : Caller)
        (dest message : Text) (c : Command) (r : Text) (d : Option Text) (own : Bool)
        → handle_command list limits currtime now user dest message ≡ (user', call c r d own)
        → (leb_ℤ (pos 0) user.access ≡ true)
          × (leb_ℤ user.access c.access ≡ true)
          × (handle_server_command list (strtok (at_byte b' ') message).0 ≡ some c)
          × (d ≡ (strtok at_end (strtok (at_byte b' ') message).1).0)
          × (user' ≡ record user { lastcmd = now })
    called list limits currtime now user user' dest message c r d own h = ground (
      arith,
      run_command-call list user.access user.nick (strtok (at_byte b' ') message).0
          (strtok at_end (strtok (at_byte b' ') message).1).0 c r d own,
      run_command-call list user.access dest (strtok (at_byte b' ') message).0
          (strtok at_end (strtok (at_byte b' ') message).1).0 c r d own,
    )

-- A user who is not banned and comes again within `cmddelay` is answered all the same where
-- `ctcpdelay` is 0: the limit on commands is tied to the setting for CTCP.
handle_command-unlimited :
    (list : List Command) (limits : Limits) (currtime now : ℕ) (user : Caller) (dest message : Text)
    → leb_ℤ (pos 0) user.access ≡ true
    → limits.ctcpdelay ≡ 0
    → (handle_command list limits currtime now user dest message).1
      ≡ run_command list user.access
          (if strcaseeq (some dest) (some user.server_nick) then user.nick else dest)
          (strtok (at_byte b' ') message).0
          (strtok at_end (strtok (at_byte b' ') message).1).0
unfolding handle_command
handle_command-unlimited list limits currtime now user dest message h e = ground arith
