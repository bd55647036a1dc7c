-- ===== src/Tracking/Servers.antt =====
-- The list of servers of src/tracking.c, in order. A socket is an address, and each item holds the
-- users and channels of its server.
use acidblood.Common.{ℕ, Bool, Option, none, some, List, [], ◌∷◌, ◌++◌, ◌==◌, if◌then◌else◌}
use acidblood.Text.{Text, strcaseeq}
use acidblood.Tracking.{Server}

-- The fields of `struct server_list` that the list is searched for.
pub record ServerItem : Type 0 where
  pub name : Text
  pub sinfo : ℕ
  pub tracked : Server

-- The two loops: the first item that passes the test, and the list without it.
unfoldable pub first_server :
    (ServerItem → Bool) → List ServerItem → Option (ServerItem × List ServerItem)
first_server test [] = none
first_server test (s ∷ servers) =
    if test s
    then some (s, servers)
    else elim (first_server test servers) [ none ↦ none | some (t, rest) ↦ some (t, s ∷ rest) ]

unfoldable pub get_server : List ServerItem → Text → Option (ServerItem × List ServerItem)
get_server servers name = first_server (λ s. strcaseeq (some s.name) (some name)) servers

unfoldable pub get_server_by_socket : List ServerItem → ℕ → Option (ServerItem × List ServerItem)
get_server_by_socket servers sinfo = first_server (λ s. s.sinfo == sinfo) servers

unfoldable pub add_server : List ServerItem → ℕ → Text → Text → List ServerItem
add_server servers sinfo name nick =
    servers
    ++ (record {
      name = name;
      sinfo = sinfo;
      tracked = record {
        nick = nick;
        ulist = [];
        clist = [];
        user_at = λ u. none;
        channel_at = λ c. none;
      };
    })
      ∷ []

-- `none` is a read through NULL: the test is on the list, not on the server that is found.
unfoldable pub get_nick : List ServerItem → ℕ → Option (Option Text)
get_nick [] sinfo = some none
get_nick (x ∷ servers) sinfo = elim (get_server_by_socket (x ∷ servers) sinfo) [
  | none ↦ none
  | some (s, _) ↦ some (some s.tracked.nick)
]

-- `DelServer` on the item that a search has found; its users and channels are freed with it.
unfoldable pub del_server_by_name : List ServerItem → Text → List ServerItem
del_server_by_name servers name = elim (get_server servers name) [
  | none ↦ servers
  | some (_, rest) ↦ rest
]

unfoldable pub del_server_by_socket : List ServerItem → ℕ → List ServerItem
del_server_by_socket servers sinfo = elim (get_server_by_socket servers sinfo) [
  | none ↦ servers
  | some (_, rest) ↦ rest
]
