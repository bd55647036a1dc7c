-- ===== src/Srvcommands/Allowed.antt =====
-- Who has the bot act with a message, in `sm_privmsg` of src/srvcommands.c.
use acidblood.Common.{
  ℕ, ◌≡◌, refl, sym, subst, ◌⊎◌, inl, inr, Bool, true, false, Option, none, some, List, [], ◌∷◌,
  arith, ◌==◌, if◌then◌else◌, ◌>>=◌, Bool-cases, After, After-bind, After-then, After-search,
  After-elim, After-if, ℤ, pos, negsuc, leb_ℤ, ltb_ℤ,
}
use acidblood.Text.{Text, strcaseeq}
use acidblood.Parser.{InputStruct, ClientInfo}
use acidblood.Commands.{Command, Caller, Limits, Action, nothing, call, handle_command, handle_ctcp}
use acidblood.Commands.Dispatch.{handle_command-call}
use acidblood.Tracking.{Server, get_user, access_in}
use acidblood.Tracking.Changes.{add_user, fill_in, update_user, update_msg_time}
use acidblood.Srvcommands.{Told, told, client_of, strip_at, first_and_rest}
use acidblood.Srvcommands.Messages.{
  Setting, Answer, silent, acted, ctcp, caller, run_at, ctcp_at, answer_message, sm_privmsg,
}

-- A command that is called is one that the access allows, and functions for CTCP are called only
-- for an access that is not negative.
abbrev pub IsAllowed : ℤ → Answer → Type 0
IsAllowed access silent = Unit {0}
IsAllowed access (ctcp user r calls rest) = (calls ≡ []) ⊎ (leb_ℤ (pos 0) access ≡ true)
IsAllowed access (acted user nothing) = Unit {0}
IsAllowed access (acted user (call c r d own)) =
    (leb_ℤ (pos 0) access ≡ true) × (leb_ℤ access c.access ≡ true)
IsAllowed access (acted user (Action.too_low r)) = Unit {0}

acted-IsAllowed :
    (list : List Command) (limits : Limits) (currtime now : ℕ) (user user' : Caller)
    (dest message : Text) (action : Action)
    → handle_command list limits currtime now user dest message ≡ (user', action)
    → IsAllowed user.access (acted user' action)
acted-IsAllowed list limits currtime now user user' dest message nothing e = tt
acted-IsAllowed list limits currtime now user user' dest message (Action.too_low r) e = tt
acted-IsAllowed list limits currtime now user user' dest message (call c r d own) e =
    let f = handle_command-call list limits currtime now user user' dest message c r d own e in
    (f.0, f.1)

run_at-IsAllowed :
    (g : Setting) (user : Caller) (dest message : Text)
    → IsAllowed user.access (run_at g user dest message)
run_at-IsAllowed g user dest message =
    acted-IsAllowed g.commands g.limits g.currtime g.now user _ dest message _ refl

not_negative : (a : ℤ) → ltb_ℤ a (pos 0) ≡ false → leb_ℤ (pos 0) a ≡ true
not_negative (pos n) e = ground arith
not_negative (negsuc n) e = absurd (ground (arith, e))

ctcp_at-IsAllowed :
    (g : Setting) (user : Caller) (message : Text)
    → After (IsAllowed user.access) (ctcp_at g user message)
unfolding handle_ctcp
ctcp_at-IsAllowed g user message = elim (Bool-cases (ltb_ℤ user.access (pos 0))) [
  | inl e ↦ rw (After, e) (inl refl)
  | inr e ↦
      After-elim (IsAllowed user.access)
        (handle_ctcp g.ctcplist g.result g.limits g.currtime g.now user message) _ _ tt
        (λ r f. inr (not_negative user.access e))
]

to_bot-IsAllowed :
    (b : Bool) (g : Setting) (user : Caller) (dest message : Text)
    → IsAllowed user.access (if b then run_at g user dest message else silent)
to_bot-IsAllowed true g user dest message = run_at-IsAllowed g user dest message
to_bot-IsAllowed false g user dest message = tt

answer-IsAllowed :
    (g : Setting) (s : Server) (user : Caller) (dest message : Text)
    → After (IsAllowed user.access) (answer_message g s user dest message)
unfolding answer_message
answer-IsAllowed g s user dest [] =
    After-if (IsAllowed user.access) (g.commandchar == 0) _ _ (λ e. tt)
      (λ e. to_bot-IsAllowed (strcaseeq (some dest) (some s.nick)) g user dest [])
answer-IsAllowed g s user dest (c ∷ message) =
    After-if (IsAllowed user.access) (c == g.commandchar) _ _
      (λ e. run_at-IsAllowed g user dest message)
      (λ e.
        After-if (IsAllowed user.access) (c == 1) _ _ (λ e'. ctcp_at-IsAllowed g user (c ∷ message))
          (λ e'. to_bot-IsAllowed (strcaseeq (some dest) (some s.nick)) g user dest (c ∷ message)))

-- What a message may lead to. From the bot's own nick nothing is done; from another, the answer is one
-- that the access of the user it comes from allows.
abbrev pub IsLawful : Bool → Server → Server × List Text × List Told × Option ℕ × Answer → Type 0
IsLawful true s r = r ≡ (s, [], [], none, silent)
IsLawful false s (s', out, told, none, answer) = ⊥
IsLawful false s (s', out, told, some u, answer) = IsAllowed (access_in u s'.ulist) answer

answered :
    (s s' : Server) (out : List Text) (nick dest message : Text) (u : ℕ) (answer : Option Answer)
    → After (IsAllowed (access_in u s'.ulist)) answer
    → After (IsLawful false s) (do
      a ← answer
      some (s', out, told 5 (some nick) (some dest) (some message) ∷ [], some u, a))
answered s s' out nick dest message u none h = tt
answered s s' out nick dest message u (some a) h = h

-- What is done once UpdateUser has given the user.
abbrev replied :
    Setting
    → Text
    → Text
    → Text
    → Server × List Text × Option ℕ
    → Option (Server × List Text × List Told × Option ℕ × Answer)
replied g nick dest message (s1, out, user) = elim user [
  | none ↦ some (s1, out, [], none, silent)
  | some u ↦ (do
    s2 ← update_msg_time g.now s1 u
    v ← s2.user_at u
    answer ← answer_message g s2 (caller g s2 u v) dest message
    some (s2, out, told 5 (some nick) (some dest) (some message) ∷ [], some u, answer))
]

-- UpdateUser gives a user exactly for a nick that is not the bot's.
abbrev Gives : Bool → Server → Server × List Text × Option ℕ → Type 0
Gives true s r = r ≡ (s, [], none)
Gives false s (s1, out, none) = ⊥
Gives false s (s1, out, some u) = Unit {0}

update_user-Gives :
    (g : Setting) (x : ℕ) (s : Server) (nick : Text) (ident address : Option Text)
    → After
        (Gives (strcaseeq (some nick) (some s.nick)) s)
        (update_user g.policy g.currtime x s nick ident address)
unfolding update_user
update_user-Gives g x s nick ident address =
    elim (Bool-cases (strcaseeq (some nick) (some s.nick))) [
      | inl e ↦ rw e refl
      | inr e ↦ rw e (
          After-search (Gives false s) (get_user s nick) _
            (λ q.
              After-bind (Gives false s)
                (fill_in g.policy (add_user g.currtime x s nick) x ident address) _ (λ r q'. tt))
            (λ (m, rest) q.
              After-bind (Gives false s) (fill_in g.policy s m.userinfo ident address) _
                (λ r q'. tt)))
    ]

replied-IsLawful :
    (own : Bool) (g : Setting) (s : Server) (nick dest message : Text)
    (r : Server × List Text × Option ℕ)
    → Gives own s r
    → After (IsLawful own s) (replied g nick dest message r)
replied-IsLawful true g s nick dest message r h =
    subst (λ r. After (IsLawful true s) (replied g nick dest message r)) (sym h) refl
replied-IsLawful false g s nick dest message (s1, out, none) h = absurd h
replied-IsLawful false g s nick dest message (s1, out, some u) h =
    After-bind (IsLawful false s) (update_msg_time g.now s1 u) _ (λ s2 e7.
      After-bind (IsLawful false s) (s2.user_at u) _ (λ v e8.
        answered s s2 out nick dest message u (answer_message g s2 (caller g s2 u v) dest message)
          (answer-IsAllowed g s2 (caller g s2 u v) dest message)))

-- Wherever a PRIVMSG with a nick in its prefix does not fault, whatever the line, the tables and the
-- users are: one from the bot's own nick, in either case of letters, changes nothing, sends nothing,
-- tells the triggers nothing and calls nothing; from another, a command is called only for a user
-- whose access on the server is not negative and is at most that of the command, and functions for
-- CTCP only for one whose access is not negative.
pub sm_privmsg-IsLawful :
    (g : Setting) (x : ℕ) (s : Server) (is : InputStruct) (client : ClientInfo Server) (nick : Text)
    → client_of s is ≡ some client
    → client.nick ≡ some nick
    → After (IsLawful (strcaseeq (some nick) (some s.nick)) s) (sm_privmsg g x s is)
unfolding sm_privmsg
sm_privmsg-IsLawful g x s is client nick e f =
    let own = strcaseeq (some nick) (some s.nick) in
    let P : Server × List Text × List Told × Option ℕ × Answer → Type 0 = IsLawful own s in
    rw e (
      After-bind P (strip_at b':' (first_and_rest is.params).1) _ (λ t e1.
        After-bind P (strip_at b'\r' (some t)) _ (λ message e2. rw f (
          After-bind P (first_and_rest is.params).0 _ (λ dest e4.
            After-then (Gives own s) P
              (update_user g.policy g.currtime x s nick client.ident client.address) _
              (update_user-Gives g x s nick client.ident client.address)
              (λ r h. replied-IsLawful own g s nick dest message r h))))))
