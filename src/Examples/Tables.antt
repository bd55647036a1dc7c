-- ===== src/Examples/Tables.antt =====
-- Triggers, servers, channels to join and lines of the configuration, and the theorems on them at concrete inputs.
use acidblood.Common.{◌≡◌, refl, none, some, List, [], ◌∷◌, arith, ◌==◌, if◌then◌else◌, codes}
use acidblood.DoublyLinked.{Heap}
use acidblood.DoublyLinked.Chain.{Holds}
use acidblood.Triggers.{TriggerStruct}
use acidblood.Tracking.Servers.{ServerItem, first_server, get_server_by_socket, add_server}
use acidblood.Config.{Cnfs, ends_line, read_line}
use acidblood.Text.{lowerstring}
use acidblood.Config.Lines.{read_line-setting}
use acidblood.Autojoin.{Channels}

abbrev greeter : TriggerStruct
greeter = record { event = 2; function = 30; module_handle = 1 }

abbrev one_node : Heap TriggerStruct
one_node b = if b == 4 then some (record { prev = 0; next = 0; item = greeter }) else none

one_node-Holds : Holds one_node ((4, greeter) ∷ [])
one_node-Holds = record { chain = (omega arith, refl, tt); distinct = (tt, tt) }

abbrev one_server : List ServerItem
one_server = add_server [] 5 (codes "irc.net") (codes "bot")

missing : get_server_by_socket one_server 6 ≡ none
unfolding get_server_by_socket first_server add_server
missing = refl

abbrev joined : List Channels
joined = (record { name = codes "#a"; key = none }) ∷ []

abbrev alt : Cnfs
alt = record { command = codes "ALT"; function = 2 }

abbrev nick : Cnfs
nick = record { command = codes "NICK"; function = 3 }

read_line-setting_example :
    (read_line (alt ∷ nick ∷ []) (codes "nick=acid\n") ≡ some (3, some (codes "acid")))
    × (read_line (alt ∷ nick ∷ []) (codes "nick=a\n") ≡ some (3, some (codes "a\n")))
unfolding ends_line lowerstring
read_line-setting_example =
    read_line-setting (alt ∷ []) [] nick b'n' b'i' (codes "ck") b'a' b'c' (codes "id")
      (refl, (refl, (refl, (refl, (refl, tt)))), (refl, refl), (refl, refl)) ((λ e. cc), tt) refl
