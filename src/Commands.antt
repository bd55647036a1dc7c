-- ===== src/Commands.antt =====
-- Command tables: `addcommand`, `delcommand` and `delcommandmodule` of src/list.c on a list in
-- memory, and the dispatch of `handle_command` in src/usrcommands.c, `handle_ctcp` in src/ctcp.c
-- and `handle_server_command` in src/srvcommands.c over the commands of such a list.
pub mod Dispatch
use acidblood.Common.{
  ℕ, zero, suc, ◌+◌, ◌-◌, ◌*◌, ◌/◌, ◌%◌, ◌≤◌, ◌<◌, ◌≡◌, refl, sym, ap, ◌∙◌, subst, ◌≢◌, ◌↔◌, ◌⊎◌,
  inl, inr, Bool, true, false, not, ◌&&◌, ◌||◌, Option, none, some, List, [], ◌∷◌, ◌++◌, map, arith,
  ltb, leb, ◌==◌, if◌then◌else◌, ltb→lt, lt→ltb, leb→le, ==_iff, ==_refl, ◌>>=◌, Bool-cases,
  Option-cases, codes, length, take, drop, length-append, take-append-drop, length-take,
  length-drop, keep, All, length-map, ℤ, pos, negsuc, pos_part, neg_part, leb_ℤ, ltb_ℤ,
}
use acidblood.Text.{Text, strcaseeq, strtok, at_byte, at_end, strip_char_from_end}
use acidblood.DoublyLinked.{Heap, link_to_list, del_first, del_all}

-- `function` and `module` are addresses, and `module` is 0 for the bot's own commands.
pub record Command : Type 0 where
  pub cmd : Text
  pub function : ℕ
  pub module_handle : ℕ
  pub access : ℤ
  pub flags : ℕ

-- `x` is the address that `malloc` gives.
unfoldable pub addcommand :
    ℕ → Heap Command → ℕ → ℕ → ℕ → Text → ℕ → ℤ → ℕ → Option (Heap Command × ℕ)
addcommand fuel h x handle list command function access flags =
    link_to_list fuel h x
      (record {
        cmd = command;
        function = function;
        module_handle = handle;
        access = access;
        flags = flags;
      })
      list

unfoldable pub delcommand : ℕ → Heap Command → ℕ → ℕ → Text → Option (Heap Command × ℕ)
unfolding strcaseeq
delcommand fuel h handle list command =
    del_first fuel (λ c. c.module_handle == handle && strcaseeq (some command) (some c.cmd)) h list
      list

unfoldable pub delcommandmodule : ℕ → Heap Command → ℕ → ℕ → Option (Heap Command × ℕ)
delcommandmodule fuel h handle list = del_all fuel (λ c. c.module_handle == handle) h list list

-- The fields of `struct userlist` and of its server that the dispatch reads and writes.
pub record Caller : Type 0 where
  pub nick : Text
  pub server_nick : Text
  pub access : ℤ
  pub lastcmd : ℕ
  pub lastctcp : ℕ

-- The settings of `botinfo` that it reads.
pub record Limits : Type 0 where
  pub ctcp : ℕ
  pub floodexempt : ℤ
  pub cmddelay : ℕ
  pub ctcpdelay : ℕ

-- What a command leads to: a call of its function with where to reply, its data and whether that
-- is a copy of its own, or the reply that the access is too low.
pub data Action : Type 0 where
  nothing : Action
  call : Command → Text → Option Text → Bool → Action
  too_low : Text → Action

abbrev pub cmd_param_rw : ℕ → Bool
cmd_param_rw flags = flags % 2 == 1

unfoldable pub run_command : List Command → ℤ → Text → Option Text → Option Text → Action
run_command [] access replyto command rest = nothing
run_command (c ∷ list) access replyto command rest =
    if strcaseeq command (some c.cmd)
    then (if leb_ℤ access c.access
        then call c replyto rest (elim rest [ none ↦ false | some r ↦ cmd_param_rw c.flags ])
        else too_low replyto)
    else run_command list access replyto command rest

-- `currtime` is the time of the round of the main loop, and `now` what `time` returns.
unfoldable pub handle_command :
    List Command → Limits → ℕ → ℕ → Caller → Text → Text → Caller × Action
handle_command list limits currtime now user dest message =
    if ltb_ℤ user.access (pos 0)
    then (user, nothing)
    else if ltb_ℤ limits.floodexempt user.access
        && (not (limits.ctcpdelay == 0) && leb currtime (limits.cmddelay + user.lastcmd))
    then (record user { lastcmd = now }, nothing)
    else (let replyto = if strcaseeq (some dest) (some user.server_nick) then user.nick else dest in
        let (command, more) = strtok (at_byte b' ') message in
        let (rest, _) = strtok at_end more in
        (record user { lastcmd = now }, run_command list user.access replyto command rest))

-- The calls that `handle_ctcp` makes. `result` is what a function returns: a negative one ends the
-- walk, and is returned.
unfoldable pub run_ctcp : List Command → (Command → ℤ) → Option Text → ℤ × List Command
run_ctcp [] result command = (pos 0, [])
run_ctcp (c ∷ list) result command =
    let (r, calls) = run_ctcp list result command in
    if strcaseeq command (some c.cmd)
    then (if ltb_ℤ (result c) (pos 0) then (result c, c ∷ []) else (r, c ∷ calls))
    else (r, calls)

-- The new user, the result, and the calls with their data; `none` where `strip_char_from_end`
-- reads in front of the parameters.
unfoldable pub handle_ctcp :
    List Command
    → (Command → ℤ)
    → Limits
    → ℕ
    → ℕ
    → Caller
    → Text
    → Option (Caller × ℤ × List Command × Option Text)
handle_ctcp list result limits currtime now user params =
    if ltb_ℤ user.access (pos 0)
    then some (user, pos 0, [], none)
    else if limits.ctcp == 0
    then some (user, pos 0, [], none)
    else if ltb_ℤ limits.floodexempt user.access
        && (not (limits.ctcpdelay == 0) && leb currtime (limits.ctcpdelay + user.lastctcp))
    then some (record user { lastctcp = now }, pos 0, [], none)
    else elim (strip_char_from_end 1 params) [
      | none ↦ none
      | some text ↦
          let (command, more) = strtok (at_byte b' ') text in
          let (rest, _) = strtok at_end more in
          let (r, calls) = run_ctcp list result command in
          some (record user { lastctcp = now }, r, calls, rest)
    ]

-- The command whose function `handle_server_command` calls, if any.
unfoldable pub handle_server_command : List Command → Option Text → Option Command
handle_server_command [] command = none
handle_server_command (c ∷ list) command =
    if strcaseeq command (some c.cmd) then some c else handle_server_command list command
