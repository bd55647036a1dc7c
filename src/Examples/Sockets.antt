-- ===== src/Examples/Sockets.antt =====
-- The theorems on sockets and servers at small cases.
use acidblood.Common.{
  ℕ, zero, suc, ◌≡◌, refl, ◌↔◌, ◌⊎◌, inr, Bool, true, false, Option, none, some, List, [], ◌∷◌,
  ◌++◌, map, arith, ◌==◌, if◌then◌else◌, codes, length, All, After, After-if, After-some, pos,
}
use acidblood.Text.{Text}
use acidblood.Settings.{BotStruct}
use acidblood.Network.{
  Event, net_read, net_write, net_error, SocketInfo, Outside, clear_flags, get_module_socket,
  change_socket, free_socket, delnetworkmodule,
}
use acidblood.Network.Buffer.{failed, byte, getline_server}
use acidblood.Network.Lines.{getline-overrun, getline-resumes}
use acidblood.Network.Connections.{Selected, done, run_handler, connect_to_host, check_connections}
use acidblood.Network.Idle.{pings, pings-end}
use acidblood.Network.Rounds.{with_idle, check_connections-idle}
use acidblood.Network.Pool.{fresh, InUse, get_module-cycle}
use acidblood.Network.States.{IsConsistent, Reached, new, connects, others, Reached-IsConsistent}
use acidblood.Servers.Action.{server_action}
use acidblood.Servers.Consistent.{server_action-IsConsistent}
use acidblood.Servers.Reading.{Starts, written, server_action-line}

abbrev pub repeat : ℕ → ℕ → Text
repeat zero c = []
repeat (suc n) c = c ∷ repeat n c

length-repeat : (n c : ℕ) → length (repeat n c) ≡ n
length-repeat zero c = refl
length-repeat (suc n) c = omega (arith, length-repeat n c)

abbrev NotNewline : ℕ → Type 0
NotNewline c = (c == b'\n') ≡ false

All-repeat : (n : ℕ) → All NotNewline (repeat n b'a')
All-repeat zero = tt
All-repeat (suc n) = (refl, All-repeat n)

abbrev pub socket : SocketInfo
socket = record {
  fd = pos 3;
  connected = true;
  connecting = false;
  writeable = false;
  readable = true;
  irc_protocol = true;
  registered = true;
  unconnectable = false;
  buffpos = 0;
  timeout = 60;
  keepalive = 0;
  lastrcvpacket = 100;
  lastsndpacket = 100;
  pingtimeout = 0;
  buff = repeat 1500 0;
  module_handle = 0;
  handler = 7;
  idle = 9;
  sent = 0;
}

-- Handlers that change nothing, idle functions that fault, and lines that go out.
abbrev pub quiet : Outside
quiet = record { run = λ h e s. some s; run_idle = λ i now s. none; sends = λ n line. true }

abbrev pub bot : BotStruct
bot = record {
  user = some (codes "acid");
  nick = some (codes "acidbot");
  altnick = none;
  fname = none;
  server = none;
  srvpass = none;
  awaymsg = none;
  mode = none;
  commandchar = b'!';
  ctcp = true;
  autoop = true;
  reqpass = false;
  port = pos 0;
  ver = none;
  ns = false;
  nspass = none;
  keepalive = pos 0;
  timeout = pos 0;
  maxtries = pos 0;
  cmddelay = pos 0;
  ctcpdelay = pos 0;
  oplevel = pos 0;
  hoplevel = pos 0;
  voicelevel = pos 0;
  floodexempt = pos 0;
}

reads_pieces :
    getline_server quiet 5
      (record socket { buff = repeat 8 0 })
      0
      (byte b'h' ∷ failed ∷ byte b'i' ∷ byte b'\r' ∷ byte b'\n' ∷ [])
    ≡ some (
      0,
      record socket { buff = b'h' ∷ repeat 7 0; buffpos = 1 },
      1,
      byte b'i' ∷ byte b'\r' ∷ byte b'\n' ∷ [],
    )
unfolding getline_server
reads_pieces = refl

getline-overrun_example :
    getline_server quiet 5 socket 0 (map byte (repeat 1500 b'a') ++ byte b'a' ∷ []) ≡ none
getline-overrun_example =
    getline-overrun quiet 5 0 socket (repeat 1500 b'a') b'a' [] refl (length-repeat 1500 0)
      (All-repeat 1500) (length-repeat 1500 b'a')

abbrev short : SocketInfo
short = record socket { buff = repeat 8 0 }

getline-resumes_example :
    getline_server quiet 9 short 0 (byte b'h' ∷ byte b'i' ∷ byte b'\r' ∷ byte b'\n' ∷ [])
    ≡ getline_server quiet 9
        (record short { buff = b'h' ∷ repeat 7 0; buffpos = 1 })
        1
        (byte b'i' ∷ byte b'\r' ∷ byte b'\n' ∷ [])
getline-resumes_example =
    getline-resumes quiet 5 9 0 1 short (record short { buff = b'h' ∷ repeat 7 0; buffpos = 1 })
      (byte b'h' ∷ []) (byte b'i' ∷ byte b'\r' ∷ byte b'\n' ∷ []) ((λ e. cc), tt) reads_pieces

pings-end_example :
    (s' : SocketInfo) × (pings quiet (λ t. codes "PING") (200 ∷ 230 ∷ 270 ∷ []) socket ≡ some s')
    × (s'.connected ≡ false)
pings-end_example =
    pings-end quiet (λ t. codes "PING") 200 270 (230 ∷ []) socket (λ h s. refl) (λ z. ground arith)
      refl (omega arith) (omega arith)

abbrev nothing_ready : Selected
nothing_ready = record { infd = λ fd. false; outfd = λ fd. false; errorfd = λ fd. false }

check_connections-idle_example :
    check_connections quiet 500 (some nothing_ready) (socket ∷ [])
    ≡ check_connections (with_idle quiet (λ i now s. some s)) 500 (some nothing_ready) (socket ∷ [])
check_connections-idle_example =
    check_connections-idle quiet (λ i now s. some s) 500 (some nothing_ready) (socket ∷ [])
      (λ h e s s' t f. After-some (λ (x : SocketInfo). x.lastrcvpacket ≡ 500) (some s) s' t f)
      (((λ z. ground arith), refl), tt)

abbrev idle_socket : SocketInfo
idle_socket = record short { handler = 0 }

abbrev taken : SocketInfo
taken = record (fresh 7 idle_socket) { module_handle = 5 }

get_module-cycle_example :
    (All InUse (short ∷ idle_socket ∷ [])
      × (get_module_socket 5 7 (short ∷ idle_socket ∷ []) ≡ none))
    ⊎ ((before : List SocketInfo) × (s : SocketInfo) × (after : List SocketInfo) × (pool2 : List
          SocketInfo)
        × (pool3 : List SocketInfo) × (short ∷ idle_socket ∷ [] ≡ before ++ s ∷ after)
        × All InUse before
        × (s.handler ≡ 0)
        × (get_module_socket 5 7 (short ∷ idle_socket ∷ [])
            ≡ some (length before, before ++ record (fresh 7 s) { module_handle = 5 } ∷ after))
        × (delnetworkmodule 5 (before ++ record (fresh 7 s) { module_handle = 5 } ∷ after) ≡ pool2)
        × (change_socket
              (λ x. some (free_socket x))
              (length before)
              (before ++ record (fresh 7 s) { module_handle = 5 } ∷ after)
            ≡ some pool2)
        × (get_module_socket 6 8 pool2 ≡ some (length before, pool3)))
get_module-cycle_example = get_module-cycle 5 7 6 8 (short ∷ idle_socket ∷ []) (refl, (refl, tt))

-- A handler as `server_action`, with lines that go out.
abbrev answers : ℕ → Event → SocketInfo → Option SocketInfo
answers h net_read s = some s
answers h net_error s = some s
answers h net_write s =
    if s.connecting
    then some (record s { connecting = false; connected = true; writeable = false })
    else some s

abbrev dialer : Outside
dialer = record { run = answers; run_idle = λ i now s. some s; sends = λ n line. true }

answers-IsConsistent :
    (h : ℕ) (s : SocketInfo) (e : Event)
    → (e ≡ net_write → s.readable ≡ true)
    → IsConsistent s
    → After IsConsistent (answers h e s)
answers-IsConsistent h s net_read w c = c
answers-IsConsistent h s net_error w c = c
answers-IsConsistent h s net_write w c =
    After-if IsConsistent s.connecting _ _ (λ e. inr (refl, w refl, refl)) (λ e. c)

-- A socket of a server, and what it is once it is connected.
abbrev handed : SocketInfo
handed = record (clear_flags short) { irc_protocol = true; timeout = 120 }

abbrev dialed : SocketInfo
dialed = record handed {
  fd = pos 4;
  connected = true;
  readable = true;
  lastsndpacket = 200;
  lastrcvpacket = 200;
}

dialed-Reached : Reached dialer dialed
unfolding connect_to_host run_handler
dialed-Reached =
    connects handed dialed (pos 0) 200 true (some 4) done
      (others (clear_flags short) handed (new short) refl refl refl refl) refl

Reached-IsConsistent_example : IsConsistent dialed
Reached-IsConsistent_example =
    Reached-IsConsistent dialer dialed (answers-IsConsistent, λ i now s c. c) dialed-Reached

server_action-IsConsistent_example :
    After IsConsistent
      (server_action quiet 5 bot [] 0 (byte b'h' ∷ []) (λ line s. some s) net_read short)
server_action-IsConsistent_example =
    server_action-IsConsistent quiet 5 bot [] 0 (byte b'h' ∷ []) (λ line s. some s) net_read short
      ((λ h s e w c. c), λ i now s c. tt) (λ line s c. c) (λ e. cc) (inr (refl, refl, refl))

server_action-line_example :
    (buff : Text) × (letter : Bool) × ((letter ≡ true) ↔ Starts (codes "ING"))
    × (server_action quiet 5 bot [] 0
          (map byte (written (codes "srv") (codes "PING") (codes "x"))
            ++ byte b'\r' ∷ byte b'\n' ∷ [])
          (λ line s. some (record s { timeout = if line.0 then 1 else 2 }))
          net_read
          socket
        ≡ some (record socket {
          timeout = if letter then 1 else 2;
          buff = buff;
          buffpos = 0;
          lastrcvpacket = 5;
        }))
server_action-line_example =
    server_action-line quiet 5 bot [] 0
      (λ line s. some (record s { timeout = if line.0 then 1 else 2 })) socket (codes "srv") b'P'
      (codes "ING") b'x' [] [] refl (length-repeat 1500 0) (omega arith)
      (refl, (refl, (refl, (refl, (refl, (refl, (refl, (refl, (refl, (refl, (refl, tt)))))))))))
      (refl, (refl, (refl, (refl, (refl, (refl, (refl, (refl, (refl, (refl, (refl, tt)))))))))))
      (refl, (refl, (refl, tt))) (refl, (refl, (refl, (refl, tt)))) (refl, tt)
