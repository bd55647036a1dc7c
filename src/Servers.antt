-- ===== src/Servers.antt =====
-- src/server.c: the servers of the configuration, `serverclist`, and how the bot connects to them.
-- A socket is its index in the pool. The settings read here are taken not to be negative. `none`
-- as a result is a call or a read through NULL, or of what `malloc` has left.
pub mod Steps
pub mod Rounds
pub mod Delay
pub mod Tries
pub mod Action
pub mod Consistent
pub mod Reading
use mathlib.Core.Option
use acidblood.Common.{
  ℕ, zero, suc, ◌+◌, ◌-◌, ◌*◌, ◌/◌, ◌%◌, ◌^◌, ◌≤◌, ◌<◌, ◌≡◌, refl, sym, ap, ◌∙◌, subst, ◌≢◌, ◌↔◌,
  ◌⊎◌, inl, inr, Bool, true, false, not, ◌&&◌, ◌||◌, Option, none, some, List, [], ◌∷◌, ◌++◌, map,
  arith, ltb, leb, ◌==◌, if◌then◌else◌, ltb→lt, lt→ltb, leb→le, ==_iff, ==_refl, ◌>>=◌, Bool-cases,
  Option-cases, codes, length, take, drop, length-append, take-append-drop, length-take,
  length-drop, keep, All, length-map, After, After-bind, After-search, After-elim, After-if,
  After-some, ℤ, pos, negsuc, pos_part, neg_part, leb_ℤ, ltb_ℤ,
}
use acidblood.Text.{Text}
use acidblood.Network.{
  SocketInfo, Outside, get_new_socket, change_socket, free_socket, disconnectonidle,
}
use acidblood.Network.Connections.{Connect, connect_to_host}
use acidblood.Tracking.Servers.{ServerItem, add_server}

-- An `int` is its bit pattern of 32 bits; one of 2 ^ 31 or more stands for a negative number.
abbrev pub int_mod : ℕ
int_mod = 2 ^ 32

abbrev pub is_negative : ℕ → Bool
is_negative n = leb (2 ^ 31) n

-- `n > a` as signed numbers, for an `a` that is not negative; and `n >= a`.
abbrev pub exceeds : ℕ → ℕ → Bool
exceeds n a = not (is_negative n) && ltb a n

abbrev pub at_least : ℕ → ℕ → Bool
at_least n a = not (is_negative n) && leb a n

-- `server` is an address, `none` for NULL. Nothing stores the address of a server there. `conatt` is
-- an `int`.
pub record ServerConf : Type 0 where
  pub address : Text
  pub port : ℕ
  pub password : Option Text
  pub conatt : ℕ
  pub nexttry : ℕ
  pub reap : Bool
  pub sinfo : ℕ
  pub server : Option ℕ

-- `action` is the address of `server_action`, and `raw` what `malloc` gives. The item is at the
-- end of the list. `SetIrcProtocol` comes before the test of the socket.
unfoldable pub add_server_conf :
    ℕ
    → ServerConf
    → Text
    → ℕ
    → Option Text
    → List SocketInfo
    → List ServerConf
    → Option (List SocketInfo × List ServerConf)
unfolding get_new_socket change_socket
add_server_conf action raw address port password socket_pool serverclist = do
  (n, pool) ← get_new_socket action socket_pool
  pool' ← change_socket (λ s. some (record s { irc_protocol = true })) n pool
  some (
    pool',
    serverclist
        ++ (record raw {
          address = address;
          port = port;
          password = elim password [ none ↦ raw.password | some p ↦ some p ];
          nexttry = 0;
          sinfo = n;
        })
          ∷ [],
  )

-- A product that does not fit wraps around.
unfoldable pub calc_con_delay : ℕ → ℕ
calc_con_delay attempt = if exceeds attempt 3 then (attempt * attempt) % int_mod else 10

-- `currtime+delay`. A time before 0 is 0 here: `nexttry` is only compared with a current time.
abbrev pub later : ℕ → ℕ → ℕ
later currtime delay = if is_negative delay then currtime - (int_mod - delay) else currtime + delay

-- What the rest of the program and the network give: `botinfo->maxtries`, `nick` and `timeout`,
-- and for an address and a port what the name, the socket and `connect` come to.
pub record Given : Type 0 where
  pub outside : Outside
  pub maxtries : ℕ
  pub nick : Text
  pub timeout : ℕ
  pub has_host : Text → Bool
  pub socket : Text → Option ℕ
  pub connect : Text → ℕ → Connect

-- The attempt to connect, behind the tests.
unfoldable pub try_connect :
    Given
    → ℕ
    → ServerConf
    → SocketInfo
    → List ServerItem
    → Option (ServerConf × SocketInfo × List ServerItem)
unfolding calc_con_delay
try_connect g currtime c s servers = do
  s1 ← disconnectonidle g.outside currtime (record s { timeout = g.timeout * 60 })
  (r, s2) ←
      connect_to_host g.outside currtime (g.has_host c.address) (g.socket c.address)
        (g.connect c.address c.port) s1
  let attempt = suc c.conatt % int_mod
  some (
    record c { conatt = attempt; nexttry = later currtime (calc_con_delay attempt) },
    s2,
    add_server servers c.sinfo c.address g.nick,
  )

-- `DelServer` on an address that is not NULL reads what is no server. `NotConnectable` clears the
-- flag.
unfoldable pub check_missing :
    Given
    → ℕ
    → ServerConf
    → SocketInfo
    → List ServerItem
    → Option (ServerConf × SocketInfo × List ServerItem)
check_missing g currtime c s servers =
    if not s.connecting && leb c.nexttry currtime
    then elim c.server [
      | some a ↦ none
      | none ↦
          if not (g.maxtries == 0) && at_least c.conatt g.maxtries
          then some (c, record s { unconnectable = false }, servers)
          else try_connect g currtime c s servers
    ]
    else some (c, s, servers)

unfoldable pub reap_conf_servers :
    List ServerConf → List SocketInfo → Option (List ServerConf × List SocketInfo)
unfolding free_socket change_socket
reap_conf_servers [] socket_pool = some ([], socket_pool)
reap_conf_servers (c ∷ serverclist) socket_pool = do
  (rest, pool) ← reap_conf_servers serverclist socket_pool
  if c.reap
      then (do pool' ← change_socket (λ s. some (free_socket s)) c.sinfo pool; some (rest, pool'))
      else some (c ∷ rest, pool)

-- What the loop of `CheckConfServers` does with one server.
unfoldable pub check_server :
    Given
    → ℕ
    → ServerConf
    → SocketInfo
    → List ServerItem
    → Option (ServerConf × SocketInfo × List ServerItem)
unfolding check_missing
check_server g currtime c s servers = do
  (c1, s1, servers1) ←
      if s.connected then some (c, s, servers) else check_missing g currtime c s servers
  let c2 = if s1.registered && not (c1.conatt == 0) then record c1 { conatt = 0 } else c1
  some (if s1.unconnectable then record c2 { reap = true } else c2, s1, servers1)

unfoldable pub socket_at : ℕ → List SocketInfo → Option SocketInfo
socket_at n [] = none
socket_at zero (s ∷ socket_pool) = some s
socket_at (suc n) (s ∷ socket_pool) = socket_at n socket_pool

unfoldable pub check_servers :
    Given
    → ℕ
    → List ServerConf
    → List SocketInfo
    → List ServerItem
    → Option (List ServerConf × List SocketInfo × List ServerItem)
unfolding check_server socket_at change_socket
check_servers g currtime [] socket_pool servers = some ([], socket_pool, servers)
check_servers g currtime (c ∷ serverclist) socket_pool servers = do
  s ← socket_at c.sinfo socket_pool
  (c', s', servers') ← check_server g currtime c s servers
  pool ← change_socket (λ x. some s') c.sinfo socket_pool
  (rest, pool', servers2) ← check_servers g currtime serverclist pool servers'
  some (c' ∷ rest, pool', servers2)

unfoldable pub check_conf_servers :
    Given
    → ℕ
    → List ServerConf
    → List SocketInfo
    → List ServerItem
    → Option (List ServerConf × List SocketInfo × List ServerItem)
unfolding reap_conf_servers check_servers
check_conf_servers g currtime serverclist socket_pool servers = do
  (left, pool) ← reap_conf_servers serverclist socket_pool
  check_servers g currtime left pool servers
