-- ===== src/Examples/Serving.antt =====
-- The theorems on the servers and the settings at small cases.
use acidblood.Common.{
  ◌≡◌, refl, true, false, none, some, List, [], ◌∷◌, ◌++◌, arith, codes, length, All,
}
use acidblood.Text.{Text}
use acidblood.Network.{SocketInfo, disconnectonidle, disconnect, send_packet, disconnected}
use acidblood.Network.Connections.{refused, connect_to_host}
use acidblood.Network.Returns.{Returns}
use acidblood.Tracking.Servers.{ServerItem, first_server, get_server_by_socket}
use acidblood.Servers.{
  ServerConf, Given, try_connect, check_missing, check_server, reap_conf_servers,
}
use acidblood.Servers.Rounds.{rounds, attempts, IsFor}
use acidblood.Servers.Tries.{Finds, rounds-kept, rounds-stale}
use acidblood.Settings.{Configured}
use acidblood.Examples.Tracks.{nobody}
use acidblood.Examples.Sockets.{socket, quiet, bot}

abbrev down : SocketInfo
down = record socket { connected = false }

abbrev conf : ServerConf
conf = record {
  address = codes "irc.net";
  port = 6667;
  password = none;
  conatt = 0;
  nexttry = 0;
  reap = false;
  sinfo = 0;
  server = none;
}

-- The name has an address, and the connection is refused.
abbrev given : Given
given = record {
  outside = quiet;
  maxtries = 2;
  nick = codes "acidbot";
  timeout = 2;
  has_host = λ a. true;
  socket = λ a. some 3;
  connect = λ a p. refused;
}

quiet-Returns : Returns quiet
quiet-Returns h e s n = (s, refl, (refl, refl, refl))

-- The second of the three rounds comes too early.
two_attempts : attempts given (100 ∷ 105 ∷ 110 ∷ []) conf down [] ≡ 2
unfolding attempts check_server check_missing try_connect disconnectonidle disconnect send_packet
    disconnected connect_to_host
two_attempts = refl

rounds-kept_example :
    (c' : ServerConf) × (s' : SocketInfo) × (servers' : List ServerItem) × (rounds given
        (100 ∷ 200 ∷ 300 ∷ 400 ∷ [])
        conf
        down
        []
      ≡ some (c', s', servers'))
    × (s'.unconnectable ≡ false)
    × (reap_conf_servers (c' ∷ []) (down ∷ []) ≡ some (c' ∷ [], down ∷ []))
rounds-kept_example =
    rounds-kept given (100 ∷ 200 ∷ 300 ∷ 400 ∷ []) conf down [] (down ∷ []) quiet-Returns
      (refl, refl, (λ z. ground arith), refl)

abbrev stale : ServerItem
stale = record { name = codes "irc.net"; sinfo = 0; tracked = nobody }

rounds-stale_example :
    (c' : ServerConf) × (s' : SocketInfo) × (more : List ServerItem) × (rounds given
        (100 ∷ 200 ∷ [])
        conf
        down
        (stale ∷ [])
      ≡ some (c', s', (stale ∷ []) ++ more))
    × (length more ≡ attempts given (100 ∷ 200 ∷ []) conf down (stale ∷ []))
    × All (IsFor conf) more
    × Finds ((stale ∷ []) ++ more) 0 stale
unfolding get_server_by_socket first_server
rounds-stale_example =
    rounds-stale given (100 ∷ 200 ∷ []) 0 conf down (stale ∷ []) stale quiet-Returns
      (refl, refl, (λ z. ground arith), refl) ([], refl)

abbrev start : Configured
start = record { botinfo = bot; servers = []; channels = [] }
