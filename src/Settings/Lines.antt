-- ===== src/Settings/Lines.antt =====
-- What the lines of the configuration make of the settings of src/conf.c, one after the other.
use acidblood.Common.{
  ℕ, zero, suc, ◌+◌, ◌≡◌, refl, sym, ap, ◌∙◌, subst, ◌≢◌, true, Option, none, some, List, [], ◌∷◌,
  ◌++◌, arith, codes, All, After, After-bind, After-map, After-elim, After-if, After-some, ℤ,
}
use mathlib.Core.List.{append_assoc, append-nil}
use acidblood.Text.{Text, strcaseeq, strtok, at_byte}
use acidblood.Parser.{parse_channels}
use acidblood.Settings.{
  BotStruct, Configured, Function, set_text, port_given, main_functions, call_at, run_confs,
  conf_user, conf_nick, conf_alt, conf_cmdchar, conf_fullname, conf_channel, conf_srvpass,
  conf_server, conf_mode, conf_awaymsg, conf_ctcp, conf_version, conf_port, conf_nserv, conf_nspass,
  conf_autoop, conf_reqpass, conf_keepalive, conf_timeout, conf_maxtries, conf_cmddelay,
  conf_ctcpdelay, conf_oplevel, conf_hoplevel, conf_voicelevel, conf_floodexempt,
}

-- A relation of the settings before and after, for each place of the table.
module _ (R : ℕ → Configured → Configured → Type 0) where
  abbrev Keeps : ℕ → Function → Type 0
  Keeps n f = (value : Option Text) (c : Configured) → After (R n c) (f value c)

  abbrev AllKeep : ℕ → List (Text × Function) → Type 0
  AllKeep n [] = Unit {0}
  AllKeep n ((name, f) ∷ rest) = Keeps n f × AllKeep (suc n) rest

  call-Keeps : (fs : List (Text × Function)) (k n : ℕ) → AllKeep k fs → Keeps (k + n) (call_at fs n)
  unfolding call_at
  call-Keeps [] k n h value c = tt
  call-Keeps ((name, f) ∷ rest) k zero h value c =
      subst (λ m. After (R m c) (f value c)) (omega arith) (h.0 value c)
  call-Keeps ((name, f) ∷ rest) k (suc n) h value c =
      subst (λ m. After (R m c) (call_at rest n value c)) (omega arith)
        (call-Keeps rest (suc k) n h.1 value c)

  text-Keeps :
      (n : ℕ) (f : Text → BotStruct → BotStruct)
      → ((t : Text) (c : Configured) → R n c (record c { botinfo = f t c.botinfo }))
      → Keeps n (set_text f)
  text-Keeps n f h none c = tt
  text-Keeps n f h (some t) c = h t c

-- What holds of every call holds of all, where it is passed on.
run-Keeps :
    (P : ℕ → Type 0) (R : Configured → Configured → Type 0)
    → ((n : ℕ) → P n → Keeps (λ m. R) n (call_at main_functions n))
    → ((c : Configured) → R c c)
    → ((a b c : Configured) → R a b → R b c → R a c)
    → (calls : List (ℕ × Option Text)) (c : Configured) → All (λ (e : ℕ × Option Text). P e.0) calls
    → After (R c) (run_confs calls c)
unfolding run_confs
run-Keeps P R k r t [] c h = r c
run-Keeps P R k r t ((n, value) ∷ calls) c (q, h) =
    let f = call_at main_functions n value c in
    After-bind (R c) f (run_confs calls) (λ a e.
      After-map (R a) (R c) (run_confs calls a)
        (λ b x. t c a b (After-some (R c) f a (k n q value c) e) x) (run-Keeps P R k r t calls a h))

-- The servers that were there are there with their ports, and CTCP that is on stays on.
abbrev Grown : Configured → Configured → Type 0
Grown c c' =
    ((more : List (Text × ℤ)) × (c'.servers ≡ c.servers ++ more))
    × (c.botinfo.ctcp ≡ true → c'.botinfo.ctcp ≡ true)

abbrev SameNick : Configured → Configured → Type 0
SameNick c c' = c'.botinfo.nick ≡ c.botinfo.nick

-- What a call of a function of the table does, and that only the second sets `nick`.
abbrev Step : ℕ → Configured → Configured → Type 0
Step n c c' = Grown c c' × (n ≢ 1 → SameNick c c')

same : (c : Configured) → Grown c c
same c = (([], sym (append-nil c.servers)), λ h. h)

step : (n : ℕ) (c : Configured) → Step n c c
step n c = (same c, λ q. refl)

user-Step : (n : ℕ) → Keeps Step n conf_user
unfolding conf_user
user-Step n none c = step n c
user-Step n (some text) c =
    After-elim (Step n c) (strtok (at_byte b':') text).0 _ _ (step n c) (λ t e. step n c)

cmdchar-Step : (n : ℕ) → Keeps Step n conf_cmdchar
unfolding conf_cmdchar
cmdchar-Step n none c = tt
cmdchar-Step n (some []) c = step n c
cmdchar-Step n (some (x ∷ s)) c = step n c

channel-Step : (n : ℕ) → Keeps Step n conf_channel
unfolding conf_channel
channel-Step n none c = tt
channel-Step n (some text) c = After-bind (Step n c) (parse_channels text) _ (λ l e. step n c)

server-Step : (n : ℕ) → Keeps Step n conf_server
unfolding conf_server
server-Step n none c = tt
server-Step n (some text) c = (((_, refl), λ h. h), λ q. refl)

ctcp-Step : (n : ℕ) → Keeps Step n conf_ctcp
unfolding conf_ctcp
ctcp-Step n value c =
    After-if (Step n c) (strcaseeq (some (codes "ON")) value) _ _
      (λ e. ((([], sym (append-nil c.servers)), λ h. refl), λ q. refl)) (λ e. step n c)

nick-Step : Keeps Step 1 conf_nick
unfolding conf_nick
nick-Step = text-Keeps Step 1 _ (λ t c. (same c, λ q. absurd (q refl)))

table-Step : AllKeep Step 0 main_functions
unfolding main_functions conf_alt conf_fullname conf_srvpass conf_mode conf_awaymsg conf_port
    conf_version conf_nserv conf_nspass conf_autoop conf_reqpass conf_keepalive conf_timeout
    conf_maxtries conf_cmddelay conf_ctcpdelay conf_oplevel conf_hoplevel conf_voicelevel
    conf_floodexempt
table-Step = (
  user-Step 0,
  (
    nick-Step,
    (
      text-Keeps Step 2 _ (λ t c. step 2 c),
      (
        cmdchar-Step 3,
        (
          text-Keeps Step 4 _ (λ t c. step 4 c),
          (
            channel-Step 5,
            (
              text-Keeps Step 6 _ (λ t c. step 6 c),
              (
                server-Step 7,
                (
                  text-Keeps Step 8 _ (λ t c. step 8 c),
                  (
                    text-Keeps Step 9 _ (λ t c. step 9 c),
                    (
                      ctcp-Step 10,
                      (
                        text-Keeps Step 11 _ (λ t c. step 11 c),
                        (
                          text-Keeps Step 12 _ (λ t c. step 12 c),
                          (
                            (λ value c. step 13 c),
                            (
                              text-Keeps Step 14 _ (λ t c. step 14 c),
                              (
                                (λ value c. step 15 c),
                                (
                                  (λ value c. step 16 c),
                                  (
                                    text-Keeps Step 17 _ (λ t c. step 17 c),
                                    (
                                      text-Keeps Step 18 _ (λ t c. step 18 c),
                                      (
                                        text-Keeps Step 19 _ (λ t c. step 19 c),
                                        (
                                          text-Keeps Step 20 _ (λ t c. step 20 c),
                                          (
                                            text-Keeps Step 21 _ (λ t c. step 21 c),
                                            (
                                              text-Keeps Step 22 _ (λ t c. step 22 c),
                                              (
                                                text-Keeps Step 23 _ (λ t c. step 23 c),
                                                (
                                                  text-Keeps Step 24 _ (λ t c. step 24 c),
                                                  (text-Keeps Step 25 _ (λ t c. step 25 c), tt),
                                                ),
                                              ),
                                            ),
                                          ),
                                        ),
                                      ),
                                    ),
                                  ),
                                ),
                              ),
                            ),
                          ),
                        ),
                      ),
                    ),
                  ),
                ),
              ),
            ),
          ),
        ),
      ),
    ),
  ),
)

call-Step : (n : ℕ) → Keeps Step n (call_at main_functions n)
call-Step n =
    subst (λ m. Keeps Step m (call_at main_functions n)) (omega arith)
      (call-Keeps Step main_functions 0 n table-Step)

-- The last call of `conf_nick` decides: wherever the calls end without a fault, one with a value and
-- no other behind it leaves the bot with that nick, whatever all other calls are.
pub run_confs-nick :
    (before after : List (ℕ × Option Text)) (nick : Text) (c : Configured)
    → All (λ (e : ℕ × Option Text). e.0 ≢ 1) after
    → After
        (λ (c' : Configured). c'.botinfo.nick ≡ some nick)
        (run_confs (before ++ (1, some nick) ∷ after) c)
unfolding run_confs main_functions call_at conf_nick
run_confs-nick [] after nick c h =
    run-Keeps (λ n. n ≢ 1) SameNick
      (λ n q value c. After-map (Step n c) (SameNick c) _ (λ a s. s.1 q) (call-Step n value c))
      (λ c. refl) (λ a b c p q. q ∙ p) after
      (record c { botinfo = record c.botinfo { nick = some nick } }) h
run_confs-nick ((n, value) ∷ before) after nick c h =
    After-bind _ (call_at main_functions n value c) _ (λ a e. run_confs-nick before after nick a h)

Grown-trans : (a b c : Configured) → Grown a b → Grown b c → Grown a c
Grown-trans a b c ((m, e), h) ((m', e'), h') =
    ((m ++ m', e' ∙ (ap (λ l. l ++ m') e ∙ append_assoc a.servers m m')), λ q. h' (h q))

abbrev Any : ℕ → Type 0
Any n = Unit {0}

All-Any : (calls : List (ℕ × Option Text)) → All (λ (e : ℕ × Option Text). Any e.0) calls
All-Any [] = tt
All-Any (e ∷ calls) = (tt, All-Any calls)

-- A call of `conf_server` takes the port of the settings at that call, or 6667 where that is 0, and no
-- call behind it changes the server's port or takes the server away; nor does any turn CTCP off where
-- it is on: wherever the calls end without a fault.
pub run_confs-server :
    (address : Text) (calls : List (ℕ × Option Text)) (c : Configured)
    → c.botinfo.ctcp ≡ true
    → After
        (λ (c' : Configured).
          ((more : List (Text × ℤ)) × (c'.servers
              ≡ c.servers ++ (address, port_given c.botinfo.port) ∷ more))
          × (c'.botinfo.ctcp ≡ true))
        (run_confs ((7, some address) ∷ calls) c)
unfolding run_confs main_functions call_at conf_server
run_confs-server address calls c on =
    let item : Text × ℤ = (address, port_given c.botinfo.port) in
    let c1 = record c {
      botinfo = record c.botinfo { server = some address };
      servers = c.servers ++ item ∷ [];
    } in
    After-map (Grown c1) _ (run_confs calls c1)
      (λ c' ((more, e), h). ((more, e ∙ append_assoc c.servers (item ∷ []) more), h on))
      (run-Keeps Any Grown
        (λ n q value c. After-map (Step n c) (Grown c) _ (λ a s. s.0) (call-Step n value c)) same
        Grown-trans calls c1 (All-Any calls))
