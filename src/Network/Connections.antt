-- ===== src/Network/Connections.antt =====
-- `connect_to_host` and `check_connections` of src/network.c. `none` is a call through NULL.
use acidblood.Common.{
  ℕ, ◌+◌, Bool, true, false, not, ◌&&◌, Option, none, some, List, [], ◌∷◌, map, ltb, ◌==◌,
  if◌then◌else◌, ◌>>=◌, codes, ℤ, pos, negsuc,
}
use acidblood.Network.{SocketInfo, Event, net_read, net_write, Outside, disconnected, send_packet}

-- The outcomes of `connect`: EINPROGRESS and EINTR are `pending`.
pub data Connect : Type 0 where
  done : Connect
  pending : Connect
  refused : Connect

-- The call of `sinfo->handler` without a test.
unfoldable pub run_handler : Outside → Event → SocketInfo → Option SocketInfo
run_handler o e s = if s.handler == 0 then none else o.run s.handler e s

-- `has_host` is whether the name is found, and `socket` the file descriptor that the system
-- gives, if any.
unfoldable pub connect_to_host :
    Outside → ℕ → Bool → Option ℕ → Connect → SocketInfo → Option (ℤ × SocketInfo)
connect_to_host o currtime false socket connect s = do
  s' ← disconnected o (record s { connected = false; connecting = true })
  some (negsuc 0, s')
connect_to_host o currtime true none connect s = do
  s' ← disconnected o (record s { connected = false; connecting = true; fd = negsuc 0 })
  some (negsuc 0, s')
connect_to_host o currtime true (some n) pending s = some (
  pos 0,
  record s {
    connected = false;
    connecting = true;
    fd = pos n;
    lastsndpacket = currtime;
    lastrcvpacket = currtime;
    writeable = true;
  },
)
connect_to_host o currtime true (some n) refused s = do
  s' ← disconnected o (record s {
    connected = false;
    connecting = true;
    fd = pos n;
    lastsndpacket = currtime;
    lastrcvpacket = currtime;
  })
  some (negsuc 0, s')
connect_to_host o currtime true (some n) done s = do
  s' ← run_handler o net_write (record s {
    connected = false;
    connecting = true;
    fd = pos n;
    lastsndpacket = currtime;
    lastrcvpacket = currtime;
    readable = true;
  })
  some (pos 0, s')

-- The sets of file descriptors that `select` leaves.
pub record Selected : Type 0 where
  pub infd : ℤ → Bool
  pub outfd : ℤ → Bool
  pub errorfd : ℤ → Bool

-- The first loop: what is readable counts as heard of. The sets themselves are `select`'s.
unfoldable pub watch : ℕ → SocketInfo → SocketInfo
watch currtime s =
    if not (s.handler == 0) && s.readable then record s { lastrcvpacket = currtime } else s

unfoldable pub call_handler : Outside → Event → SocketInfo → Option SocketInfo
call_handler o e s = if s.handler == 0 then some s else o.run s.handler e s

unfoldable pub call_idle : Outside → ℕ → SocketInfo → Option SocketInfo
call_idle o currtime s =
    if not (s.idle == 0) && ltb (s.timeout + s.lastrcvpacket) currtime
    then o.run_idle s.idle currtime s
    else some s

unfoldable pub call_keepalive : Outside → ℕ → SocketInfo → Option SocketInfo
call_keepalive o currtime s =
    if ltb 0 s.keepalive && ltb (s.keepalive + s.lastsndpacket) currtime
    then send_packet o currtime s (codes "\n")
    else some s

-- One round of the second loop. `FD_ISSET` is asked of the descriptor that the socket has then.
unfoldable pub serve : Outside → ℕ → Selected → SocketInfo → Option SocketInfo
serve o currtime ready s = do
  s1 ← if ready.errorfd s.fd then disconnected o s else some s
  s2 ← if ready.infd s1.fd then call_handler o net_read s1 else some s1
  s3 ←
      if ready.outfd s2.fd
      then call_handler o net_write (record s2 { readable = true })
      else some s2
  s4 ← call_idle o currtime s3
  call_keepalive o currtime s4

unfoldable pub serve_all : Outside → ℕ → Selected → List SocketInfo → Option (List SocketInfo)
unfolding serve
serve_all o currtime ready [] = some []
serve_all o currtime ready (s ∷ socket_pool) = do
  s' ← serve o currtime ready s
  rest ← serve_all o currtime ready socket_pool
  some (s' ∷ rest)

-- `none` for the sets is a result of `select` below 0.
unfoldable pub check_connections :
    Outside → ℕ → Option Selected → List SocketInfo → Option (List SocketInfo)
unfolding watch serve_all
check_connections o currtime none socket_pool = some (map (watch currtime) socket_pool)
check_connections o currtime (some ready) socket_pool =
    serve_all o currtime ready (map (watch currtime) socket_pool)
