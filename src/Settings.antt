-- ===== src/Settings.antt =====
-- The settings of the bot: `struct botstruct`, and the functions of src/conf.c that the lines of
-- the configuration call. `none` as a result is a read through NULL: `strdup`, `atoi` or `data[0]`
-- of a value that is missing.
pub mod Lines
pub mod Reading
use acidblood.Common.{
  ℕ, zero, suc, ◌+◌, ◌-◌, ◌*◌, ◌/◌, ◌%◌, ◌≤◌, ◌<◌, ◌≡◌, refl, sym, ap, ◌∙◌, subst, ◌≢◌, ◌↔◌, ◌⊎◌,
  inl, inr, Bool, true, false, not, ◌&&◌, ◌||◌, Option, none, some, List, [], ◌∷◌, ◌++◌, map, arith,
  ltb, leb, ◌==◌, if◌then◌else◌, ltb→lt, lt→ltb, leb→le, ==_iff, ==_refl, ◌>>=◌, Bool-cases,
  Option-cases, codes, length, take, drop, length-append, take-append-drop, length-take,
  length-drop, keep, All, length-map, After, After-bind, After-search, After-elim, After-if,
  After-some, ℤ, pos, negsuc, pos_part, neg_part, leb_ℤ, ltb_ℤ,
}
use acidblood.Text.{Text, strcaseeq, strtok, at_byte}
use acidblood.Parser.{parse_channels}
use acidblood.Config.{Cnfs, addconf, read_config}

-- `botinfo`, without what the program does not read.
pub record BotStruct : Type 0 where
  pub user : Option Text
  pub nick : Option Text
  pub altnick : Option Text
  pub fname : Option Text
  pub server : Option Text
  pub srvpass : Option Text
  pub awaymsg : Option Text
  pub mode : Option Text
  pub commandchar : ℕ
  pub ctcp : Bool
  pub autoop : Bool
  pub reqpass : Bool
  pub port : ℤ
  pub ver : Option Text
  pub ns : Bool
  pub nspass : Option Text
  pub keepalive : ℤ
  pub timeout : ℤ
  pub maxtries : ℤ
  pub cmddelay : ℤ
  pub ctcpdelay : ℤ
  pub oplevel : ℤ
  pub hoplevel : ℤ
  pub voicelevel : ℤ
  pub floodexempt : ℤ

-- `botinfo`, the arguments of the calls of `AddServerConf`, and those of `insert_channels`.
pub record Configured : Type 0 where
  pub botinfo : BotStruct
  pub servers : List (Text × ℤ)
  pub channels : List (Text × Option Text)

-- `atoi` of the C library, on numbers that fit.
abbrev pub isdigit : ℕ → Bool
isdigit c = leb b'0' c && leb c b'9'

unfoldable pub digits : ℕ → Text → ℕ
digits n [] = n
digits n (c ∷ s) = if isdigit c then digits (n * 10 + (c - b'0')) s else n

abbrev pub negate : ℕ → ℤ
negate zero = pos 0
negate (suc n) = negsuc n

abbrev pub isspace : ℕ → Bool
isspace c = c == b' ' || (leb 9 c && leb c 13)

unfoldable pub atoi : Text → ℤ
unfolding digits
atoi [] = pos 0
atoi (c ∷ s) =
    if isspace c
    then atoi s
    else if c == b'-'
    then negate (digits 0 s)
    else if c == b'+'
    then pos (digits 0 s)
    else pos (digits 0 (c ∷ s))

abbrev change_bot : (BotStruct → BotStruct) → Configured → Option Configured
change_bot f c = some (record c { botinfo = f c.botinfo })

-- What is made of the value by `strdup` or `atoi`.
abbrev pub set_text : (Text → BotStruct → BotStruct) → Option Text → Configured → Option Configured
set_text f none c = none
set_text f (some text) c = change_bot (f text) c

abbrev is_on : Option Text → Bool
is_on value = strcaseeq value (some (codes "ON"))

abbrev leading : Text → Text
leading [] = []
leading (c ∷ s) = if c == b':' then c ∷ leading s else []

-- The text up to the end of the first token, where `strtok` has put a NUL. Without a value `strtok`
-- goes on at the end of the line.
unfoldable pub conf_user : Option Text → Configured → Option Configured
conf_user none c = some c
conf_user (some text) c = elim (strtok (at_byte b':') text).0 [
  | none ↦ some c
  | some t ↦ change_bot (λ b. record b { user = some (leading text ++ t) }) c
]

unfoldable pub conf_nick : Option Text → Configured → Option Configured
conf_nick = set_text (λ t b. record b { nick = some t })

unfoldable pub conf_alt : Option Text → Configured → Option Configured
conf_alt = set_text (λ t b. record b { altnick = some t })

-- `data[0]`
unfoldable pub conf_cmdchar : Option Text → Configured → Option Configured
conf_cmdchar none c = none
conf_cmdchar (some []) c = change_bot (λ b. record b { commandchar = 0 }) c
conf_cmdchar (some (x ∷ s)) c = change_bot (λ b. record b { commandchar = x }) c

unfoldable pub conf_fullname : Option Text → Configured → Option Configured
conf_fullname = set_text (λ t b. record b { fname = some t })

unfoldable pub conf_channel : Option Text → Configured → Option Configured
conf_channel none c = none
conf_channel (some text) c = do
  channels ← parse_channels text
  some (record c { channels = c.channels ++ channels })

unfoldable pub conf_srvpass : Option Text → Configured → Option Configured
conf_srvpass = set_text (λ t b. record b { srvpass = some t })

abbrev pub port_given : ℤ → ℤ
port_given (pos n) = pos (if n == 0 then 6667 else n)
port_given (negsuc n) = negsuc n

unfoldable pub conf_server : Option Text → Configured → Option Configured
conf_server none c = none
conf_server (some text) c = some (record c {
  botinfo = record c.botinfo { server = some text };
  servers = c.servers ++ (text, port_given c.botinfo.port) ∷ [];
})

unfoldable pub conf_mode : Option Text → Configured → Option Configured
conf_mode = set_text (λ t b. record b { mode = some t })

unfoldable pub conf_awaymsg : Option Text → Configured → Option Configured
conf_awaymsg = set_text (λ t b. record b { awaymsg = some t })

unfoldable pub conf_ctcp : Option Text → Configured → Option Configured
conf_ctcp value c =
    if strcaseeq (some (codes "ON")) value
    then change_bot (λ b. record b { ctcp = true }) c
    else some c

unfoldable pub conf_version : Option Text → Configured → Option Configured
conf_version = set_text (λ t b. record b { ver = some t })

unfoldable pub conf_port : Option Text → Configured → Option Configured
conf_port = set_text (λ t b. record b { port = atoi t })

unfoldable pub conf_nserv : Option Text → Configured → Option Configured
conf_nserv value = change_bot (λ b. record b { ns = strcaseeq (some (codes "ON")) value })

unfoldable pub conf_nspass : Option Text → Configured → Option Configured
conf_nspass = set_text (λ t b. record b { nspass = some t })

unfoldable pub conf_autoop : Option Text → Configured → Option Configured
conf_autoop value = change_bot (λ b. record b { autoop = is_on value })

unfoldable pub conf_reqpass : Option Text → Configured → Option Configured
conf_reqpass value = change_bot (λ b. record b { reqpass = is_on value })

unfoldable pub conf_keepalive : Option Text → Configured → Option Configured
conf_keepalive = set_text (λ t b. record b { keepalive = atoi t })

unfoldable pub conf_timeout : Option Text → Configured → Option Configured
conf_timeout = set_text (λ t b. record b { timeout = atoi t })

unfoldable pub conf_maxtries : Option Text → Configured → Option Configured
conf_maxtries = set_text (λ t b. record b { maxtries = atoi t })

unfoldable pub conf_cmddelay : Option Text → Configured → Option Configured
conf_cmddelay = set_text (λ t b. record b { cmddelay = atoi t })

unfoldable pub conf_ctcpdelay : Option Text → Configured → Option Configured
conf_ctcpdelay = set_text (λ t b. record b { ctcpdelay = atoi t })

unfoldable pub conf_oplevel : Option Text → Configured → Option Configured
conf_oplevel = set_text (λ t b. record b { oplevel = atoi t })

unfoldable pub conf_hoplevel : Option Text → Configured → Option Configured
conf_hoplevel = set_text (λ t b. record b { hoplevel = atoi t })

unfoldable pub conf_voicelevel : Option Text → Configured → Option Configured
conf_voicelevel = set_text (λ t b. record b { voicelevel = atoi t })

unfoldable pub conf_floodexempt : Option Text → Configured → Option Configured
conf_floodexempt = set_text (λ t b. record b { floodexempt = atoi t })

abbrev pub Function : Type 0
Function = Option Text → Configured → Option Configured

-- The keywords with their functions, whose place here is their address.
unfoldable pub main_functions : List (Text × Function)
main_functions =
    (codes "USER", conf_user)
    ∷ (codes "NICK", conf_nick)
    ∷ (codes "ALT", conf_alt)
    ∷ (codes "COMMANDCHAR", conf_cmdchar)
    ∷ (codes "FULLNAME", conf_fullname)
    ∷ (codes "CHANNELS", conf_channel)
    ∷ (codes "SRVPASS", conf_srvpass)
    ∷ (codes "SERVER", conf_server)
    ∷ (codes "MODE", conf_mode)
    ∷ (codes "AWAYMSG", conf_awaymsg)
    ∷ (codes "CTCP", conf_ctcp)
    ∷ (codes "PORT", conf_port)
    ∷ (codes "VERSION", conf_version)
    ∷ (codes "NSERV", conf_nserv)
    ∷ (codes "NSPASS", conf_nspass)
    ∷ (codes "AUTOOP", conf_autoop)
    ∷ (codes "REQPASS", conf_reqpass)
    ∷ (codes "KEEPALIVE", conf_keepalive)
    ∷ (codes "TIMEOUT", conf_timeout)
    ∷ (codes "MAXTRIES", conf_maxtries)
    ∷ (codes "CMDDELAY", conf_cmddelay)
    ∷ (codes "CTCPDELAY", conf_ctcpdelay)
    ∷ (codes "OPLEVEL", conf_oplevel)
    ∷ (codes "HOPLEVEL", conf_hoplevel)
    ∷ (codes "VOICLEVEL", conf_voicelevel)
    ∷ (codes "FLOODEXEMPT", conf_floodexempt)
    ∷ []

abbrev add_main : ℕ → List (Text × Function) → List Cnfs → List Cnfs
add_main n [] confs = confs
add_main n ((name, f) ∷ rest) confs = add_main (suc n) rest (addconf confs name n)

unfoldable pub init_conf : List Cnfs
unfolding main_functions
init_conf = add_main 0 main_functions []

unfoldable pub call_at : List (Text × Function) → ℕ → Function
call_at [] n value c = none
call_at ((name, f) ∷ rest) zero value c = f value c
call_at ((name, f) ∷ rest) (suc n) value c = call_at rest n value c

-- The calls that `read_config` makes, in order.
unfoldable pub run_confs : List (ℕ × Option Text) → Configured → Option Configured
unfolding call_at main_functions
run_confs [] c = some c
run_confs ((n, value) ∷ calls) c = do c' ← call_at main_functions n value c; run_confs calls c'

unfoldable pub read_main_config : List Text → Configured → Option Configured
unfolding run_confs init_conf
read_main_config lines c = run_confs (read_config init_conf lines) c
