-- ===== src/Network.antt =====
-- The sockets of src/network.c, with `struct socket_info` of include/acidblood.h and the flags of
-- include/network.h: their pool, what is sent on one and how it ends. `none` as a result is a call
-- through a NULL handler, or a read or a write outside a buffer.
pub mod Buffer
pub mod Lines
pub mod Endings
pub mod Pool
pub mod Connections
pub mod Idle
pub mod Returns
pub mod Rounds
pub mod States
use acidblood.Common.{
  ℕ, zero, suc, ◌+◌, ◌-◌, ◌*◌, ◌/◌, ◌%◌, ◌≤◌, ◌<◌, ◌≡◌, refl, sym, ap, ◌∙◌, subst, ◌≢◌, ◌↔◌, ◌⊎◌,
  inl, inr, Bool, true, false, not, ◌&&◌, ◌||◌, Option, none, some, List, [], ◌∷◌, ◌++◌, map, arith,
  ltb, leb, ◌==◌, if◌then◌else◌, ltb→lt, lt→ltb, leb→le, ==_iff, ==_refl, ◌>>=◌, Bool-cases,
  Option-cases, codes, length, take, drop, length-append, take-append-drop, length-take,
  length-drop, keep, All, All-append, All-parts, length-map, After, After-bind, After-map,
  After-then, After-search, After-elim, After-if, After-some, ℤ, pos, negsuc, pos_part, neg_part,
  leb_ℤ, ltb_ℤ,
}
use mathlib.Core.Option
use acidblood.Text.{Text}
use acidblood.Sending.{irc_sprintf}

-- The bits of `flags` are Booleans. `module_handle`, `handler` and `idle` are addresses, 0 for
-- NULL. `sent` is no field of the source: it counts the calls of `send` on the socket.
pub record SocketInfo : Type 0 where
  pub fd : ℤ
  pub connected : Bool
  pub connecting : Bool
  pub writeable : Bool
  pub readable : Bool
  pub irc_protocol : Bool
  pub registered : Bool
  pub unconnectable : Bool
  pub buffpos : ℕ
  pub timeout : ℕ
  pub keepalive : ℕ
  pub lastrcvpacket : ℕ
  pub lastsndpacket : ℕ
  pub pingtimeout : ℕ
  pub buff : Text
  pub module_handle : ℕ
  pub handler : ℕ
  pub idle : ℕ
  pub sent : ℕ

-- What a handler is told: NET_READ, NET_WRITE and NET_ERROR.
pub data Event : Type 0 where
  net_read : Event
  net_write : Event
  net_error : Event

-- The functions behind the addresses, which may change their own socket, and whether a call of
-- `send` succeeds: the calls on a socket are numbered from 0, so the same text may go out once and
-- fail the next time.
pub record Outside : Type 0 where
  pub run : ℕ → Event → SocketInfo → Option SocketInfo
  pub run_idle : ℕ → ℕ → SocketInfo → Option SocketInfo
  pub sends : ℕ → Text → Bool

abbrev pub clear_flags : SocketInfo → SocketInfo
clear_flags s = record s {
  connected = false;
  connecting = false;
  writeable = false;
  readable = false;
  irc_protocol = false;
  registered = false;
  unconnectable = false;
}

unfoldable pub init_networking : List SocketInfo → List SocketInfo
init_networking = map (λ s. record (clear_flags s) { buffpos = 0; handler = 0 })

-- The index of the socket, which takes the place of its address, and the new pool.
unfoldable pub get_new_socket : ℕ → List SocketInfo → Option (ℕ × List SocketInfo)
get_new_socket handler [] = none
get_new_socket handler (s ∷ socket_pool) =
    let rest = get_new_socket handler socket_pool in
    if s.handler == 0
    then some (
      0,
      record (clear_flags s) {
        lastrcvpacket = 0;
        lastsndpacket = 0;
        pingtimeout = 0;
        buffpos = 0;
        handler = handler;
        module_handle = 0;
        idle = 0;
        timeout = 0;
      }
          ∷ socket_pool,
    )
    else Option.map (λ (r : ℕ × List SocketInfo). (suc r.0, s ∷ r.1)) rest

-- The change of one socket of the pool; an index behind its end is no socket.
unfoldable pub change_socket :
    (SocketInfo → Option SocketInfo) → ℕ → List SocketInfo → Option (List SocketInfo)
change_socket f n [] = none
change_socket f zero (s ∷ socket_pool) = Option.map (λ s'. s' ∷ socket_pool) (f s)
change_socket f (suc n) (s ∷ socket_pool) = Option.map (◌∷◌ s) (change_socket f n socket_pool)

unfoldable pub get_module_socket : ℕ → ℕ → List SocketInfo → Option (ℕ × List SocketInfo)
unfolding get_new_socket change_socket
get_module_socket handle handler socket_pool = do
  (n, pool) ← get_new_socket handler socket_pool
  pool' ← change_socket (λ s. some (record s { module_handle = handle })) n pool
  some (n, pool')

-- `close` is a call of the system.
unfoldable pub free_socket : SocketInfo → SocketInfo
free_socket s = record (clear_flags s) {
  buffpos = 0;
  handler = 0;
  module_handle = 0;
  idle = 0;
  buff = map (λ b. 0) s.buff;
}

unfoldable pub delnetworkmodule : ℕ → List SocketInfo → List SocketInfo
unfolding free_socket
delnetworkmodule handle = map (λ s. if s.module_handle == handle then free_socket s else s)

unfoldable pub disconnected : Outside → SocketInfo → Option SocketInfo
disconnected o s =
    if s.handler == 0
    then none
    else o.run s.handler net_error (record s {
      connected = false;
      connecting = false;
      writeable = false;
      readable = false;
      pingtimeout = 0;
    })

unfoldable pub send_packet : Outside → ℕ → SocketInfo → Text → Option SocketInfo
send_packet o currtime s buff = do
  let s1 = record s { sent = suc s.sent }
  s' ← if o.sends s.sent buff then some s1 else disconnected o s1
  some (record s' { lastsndpacket = currtime })

unfoldable pub disconnect : Outside → ℕ → Text → SocketInfo → Option SocketInfo
disconnect o currtime reason s = do
  s' ← send_packet o currtime s (irc_sprintf (codes "QUIT :" ++ reason ++ codes "\n"))
  disconnected o s'

unfoldable pub disconnectonidle : Outside → ℕ → SocketInfo → Option SocketInfo
disconnectonidle o currtime s = disconnect o currtime (codes "connection timed out") s

-- `ping` is the line PING with the time, as `vsprintf` writes it.
unfoldable pub pingonidle : Outside → (ℕ → Text) → ℕ → SocketInfo → Option SocketInfo
pingonidle o ping currtime s =
    if ltb 0 s.pingtimeout
    then (if ltb s.pingtimeout currtime
        then disconnect o currtime (codes "ping timeout") s
        else some s)
    else send_packet o currtime (record s { pingtimeout = currtime + s.timeout }) (ping currtime)
